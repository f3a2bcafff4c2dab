-- ===== src/LoadBalancerController/Status.antt =====
-- `updateLoadBalancerStatus` of internal/controllers/kubelb/loadbalancer_controller.go, with the two
-- health checks.
use kubelb_ce.Base.{Bool, not, ◌&&◌, ◌||◌, Option, none, some, List, [], ◌∷◌, ◌++◌}
use kubelb_ce.Base.{text_eq, ◌==◌, if◌then◌else◌}
use kubelb_ce.Base.Text.{Text, txt}
use kubelb_ce.Api.{
  HostnameStatus, LoadBalancerEndpoints, LoadBalancerStatus, LoadBalancer, Service, StatusPort,
}
use kubelb_ce.Cluster.{
  Kind, Client, Action, pure, or_halt, ◌>>=◌, ◌>>◌, get, patch_status, resolves, is_healthy,
}
use kubelb_ce.Events.{load_balancer_type}
use kubelb_ce.LoadBalancerController.{DeepEqual}
use kubelb_ce.Cluster.{request_of}
use kubelb_ce.LoadBalancerController.Configure.{status_hostname}
use kubelb_ce.ServicePorts.{status_ports}

unfoldable pub with_status : LoadBalancerStatus → LoadBalancer → LoadBalancer
with_status status lb = record lb { status = status }

unfoldable pub status_needs_update : DeepEqual → LoadBalancer → Service → LoadBalancerStatus → Bool
status_needs_update same lb service updated =
    not (same.status_ports lb.status.service.ports updated.service.ports)
    || ((lb.spec.type == load_balancer_type
          && not (same.ingress_points lb.status.ingress service.ingress))
        || not (same.hostnames lb.status.hostname updated.hostname))

module _ {S : Type 0} (client : Client S) (same : DeepEqual) where
  -- The status of the hostname in use; no status without one.
  unfoldable pub checked_hostname : LoadBalancer → Text → Action S (Option HostnameStatus)
  checked_hostname lb hostname =
      if hostname == []
      then pure none
      else let host : Text = elim (status_hostname lb) [
        | none ↦ hostname
        | some existing ↦ existing
      ] in
        resolves client host >>= λ dns_ready.
        is_healthy client (txt "https://" ++ host) >>= λ tls_ready.
        pure (
          some
            (record { hostname = host; tls_enabled = tls_ready; dns_record_created = dns_ready }))

  -- The function that is tried again on a conflict.
  unfoldable pub write_status : LoadBalancer → LoadBalancerStatus → Action S Unit
  write_status lb updated = get client Kind.load_balancer (request_of lb.meta) >>= λ original.
      (if same.statuses original.status updated
        then pure tt
        else patch_status client Kind.load_balancer original (with_status updated original)
          >> pure tt)

  -- `retry.RetryOnConflict` stands for the function of the library.
  unfoldable pub save_status :
      (Action S Unit → Action S Unit) → LoadBalancer → Service → LoadBalancerStatus → Action S Unit
  unfolding write_status
  save_status retry_on_conflict lb service updated =
      if status_needs_update same lb service updated
      then retry_on_conflict (write_status lb updated)
      else pure tt

  unfoldable pub save_checked :
      (Action S Unit → Action S Unit)
      → LoadBalancer
      → Service
      → List StatusPort
      → Option HostnameStatus
      → Action S Unit
  unfolding save_status
  save_checked retry_on_conflict lb service ports checked =
      save_status retry_on_conflict lb service (record {
        ingress = service.ingress;
        service = record { ports = ports };
        hostname = checked;
      })

  -- From the ports on.
  unfoldable pub check_and_save :
      (Action S Unit → Action S Unit)
      → LoadBalancer
      → Service
      → Text
      → List StatusPort
      → Action S Unit
  unfolding checked_hostname save_checked
  check_and_save retry_on_conflict lb service hostname ports =
      checked_hostname lb hostname >>= save_checked retry_on_conflict lb service ports

  unfoldable pub update_status_of :
      (Action S Unit → Action S Unit)
      → List LoadBalancerEndpoints
      → LoadBalancer
      → Service
      → Text
      → Action S Unit
  unfolding check_and_save
  update_status_of retry_on_conflict [] lb service hostname = pure tt
  update_status_of retry_on_conflict (e ∷ es) lb service hostname =
      or_halt (status_ports e.ports 0 service.ports)
      >>= check_and_save retry_on_conflict lb service hostname

  unfoldable pub update_load_balancer_status :
      (Action S Unit → Action S Unit) → LoadBalancer → Service → Text → Action S Unit
  unfolding update_status_of
  update_load_balancer_status retry_on_conflict lb service hostname =
      update_status_of retry_on_conflict lb.spec.endpoints lb service hostname
