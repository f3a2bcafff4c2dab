-- ===== src/LoadBalancerController/Reconcile/Steps.antt =====
-- The steps of `Reconcile` (internal/controllers/kubelb/loadbalancer_controller.go) after the allocation
-- of the ports have every invariant that reads and calls that write have.
use kubelb_ce.Base.{arith, Option, none, some, List, [], ◌∷◌}
use kubelb_ce.Base.{text_eq}
use kubelb_ce.Base.Text.{Text}
use kubelb_ce.Api.{
  StatusPort, LoadBalancer, LoadBalancerStatus, LoadBalancerEndpoints, Service, TenantSpec,
  ConfigSpec, AnnotationSettings,
}
use kubelb_ce.Cluster.Keeps.{Holds, >>=-Holds, if-Holds, IsRetry, IsStable}
use kubelb_ce.ServicePorts.{status_ports}
use kubelb_ce.Hostnames.{should_configure_hostname}
use kubelb_ce.Annotations.{get_annotations}
use kubelb_ce.LoadBalancerController.Reconcile.{
  class_name, report, serve_found, serve_service, load_balancers_of, get_tenant_and_config,
}
use kubelb_ce.LoadBalancerController.{service_name, envoy_snapshot_and_app_name, resource_namespace}
use kubelb_ce.Cluster.{request}
use kubelb_ce.Cluster.{or_halt, get, Kind, Client, World, Action, pure, ◌>>=◌, ◌>>◌}
use kubelb_ce.Base.{◌==◌, if◌then◌else◌}
use kubelb_ce.LoadBalancerController.{Topology, Setup, DeepEqual}
use kubelb_ce.LoadBalancerController.Services.{reconcile_service}
use kubelb_ce.LoadBalancerController.Hostname.{SetOwner}
use kubelb_ce.LoadBalancerController.Configure.{
  configure_hostname, expose_hostname, new_hostname, persist_hostname, add_hostname_finalizer,
  expose_load_balancer, status_hostname,
}
use kubelb_ce.LoadBalancerController.Status.{
  update_load_balancer_status, status_needs_update, update_status_of, checked_hostname,
  check_and_save, save_checked, save_status, write_status,
}
use kubelb_ce.LoadBalancerController.Reconcile.{hostname_step, serve}

module _ {S : Type 0} (client : Client S) (same : DeepEqual) (set_owner : SetOwner)
    (P : World S → Type 0) (st : IsStable P) where
  pub reconcile_service-Holds :
      (lb : LoadBalancer) (svc_name app_name namespace : Text) (class : Option Text)
      (settings : AnnotationSettings)
      → Holds P (reconcile_service client same lb svc_name app_name namespace class settings)
  unfolding reconcile_service
  reconcile_service-Holds lb svc_name app_name namespace class settings w h =
      grind (arith, h, st.reads, st.writes)

  pub expose_hostname-Holds :
      (lb : LoadBalancer) (svc_name hostname : Text) (t : TenantSpec) (c : ConfigSpec)
      (settings : AnnotationSettings)
      → Holds P (expose_hostname client same set_owner lb svc_name hostname t c settings)
  unfolding expose_hostname
  expose_hostname-Holds lb svc_name hostname t c settings w h =
      grind (arith, h, st.reads, st.writes)

  new_hostname-Holds :
      (lb : LoadBalancer) (t : TenantSpec) (c : ConfigSpec)
      → Holds P (new_hostname client same set_owner lb t c)
  unfolding new_hostname
  new_hostname-Holds lb t c w h = grind (arith, h, st.reads, st.writes)

  persist_hostname-Holds :
      (lb : LoadBalancer) (hostname : Text)
      → Holds P (persist_hostname client same set_owner lb hostname)
  unfolding persist_hostname
  persist_hostname-Holds lb hostname w h = grind (arith, h, st.reads, st.writes)

  add_hostname_finalizer-Holds :
      (lb : LoadBalancer) → Holds P (add_hostname_finalizer client same set_owner lb)
  unfolding add_hostname_finalizer
  add_hostname_finalizer-Holds lb w h = grind (arith, h, st.reads, st.writes)

  expose_load_balancer-Holds :
      (lb : LoadBalancer) (svc_name hostname : Text) (t : TenantSpec) (c : ConfigSpec)
      (settings : AnnotationSettings)
      → Holds P (expose_load_balancer client same set_owner lb svc_name hostname t c settings)
  unfolding expose_load_balancer
  expose_load_balancer-Holds lb svc_name hostname t c settings =
      >>=-Holds P (add_hostname_finalizer client same set_owner lb)
        (λ finalized.
          expose_hostname client same set_owner finalized svc_name hostname t c settings
          >> pure (hostname, finalized))
        (add_hostname_finalizer-Holds lb)
        (λ finalized.
          >>=-Holds P
            (expose_hostname client same set_owner finalized svc_name hostname t c settings)
            (λ _. pure (hostname, finalized))
            (expose_hostname-Holds finalized svc_name hostname t c settings) (λ _ w h. h))

  expose_new-Holds :
      (lb : LoadBalancer) (svc_name : Text) (t : TenantSpec) (c : ConfigSpec)
      (settings : AnnotationSettings) (hostname : Text)
      → Holds P (
          if hostname == []
          then pure ([], lb)
          else persist_hostname client same set_owner lb hostname >>= λ named.
              expose_load_balancer client same set_owner named svc_name hostname t c settings)
  expose_new-Holds lb svc_name t c settings hostname =
      if-Holds P (hostname == []) (pure ([], lb))
        (persist_hostname client same set_owner lb hostname >>= λ named.
          expose_load_balancer client same set_owner named svc_name hostname t c settings)
        (λ w h. h)
        (>>=-Holds P (persist_hostname client same set_owner lb hostname)
          (λ named. expose_load_balancer client same set_owner named svc_name hostname t c settings)
          (persist_hostname-Holds lb hostname)
          (λ named. expose_load_balancer-Holds named svc_name hostname t c settings))

  configure_from-Holds :
      (lb : LoadBalancer) (svc_name : Text) (t : TenantSpec) (c : ConfigSpec)
      (settings : AnnotationSettings) (found : Option Text)
      → Holds P (elim found [
        | some hostname ↦
            expose_load_balancer client same set_owner lb svc_name hostname t c settings
        | none ↦ new_hostname client same set_owner lb t c >>= λ hostname.
            (if hostname == []
              then pure ([], lb)
              else persist_hostname client same set_owner lb hostname >>= λ named.
                  expose_load_balancer client same set_owner named svc_name hostname t c settings)
      ])
  configure_from-Holds lb svc_name t c settings none =
      >>=-Holds P (new_hostname client same set_owner lb t c)
        (λ hostname.
          if hostname == []
          then pure ([], lb)
          else persist_hostname client same set_owner lb hostname >>= λ named.
              expose_load_balancer client same set_owner named svc_name hostname t c settings)
        (new_hostname-Holds lb t c) (expose_new-Holds lb svc_name t c settings)
  configure_from-Holds lb svc_name t c settings (some hostname) =
      expose_load_balancer-Holds lb svc_name hostname t c settings

  pub configure_hostname-Holds :
      (lb : LoadBalancer) (svc_name : Text) (t : TenantSpec) (c : ConfigSpec)
      (settings : AnnotationSettings)
      → Holds P (configure_hostname client same set_owner lb svc_name t c settings)
  unfolding configure_hostname
  configure_hostname-Holds lb svc_name t c settings =
      configure_from-Holds lb svc_name t c settings (status_hostname lb)

  pub get_tenant_and_config-Holds :
      (namespace name : Text) → Holds P (get_tenant_and_config client namespace name)
  unfolding get_tenant_and_config
  get_tenant_and_config-Holds namespace name w h = grind (arith, h, st.reads, st.writes)

  pub load_balancers_of-Holds :
      (topology : Topology) (namespace : Text)
      → Holds P (load_balancers_of client topology namespace)
  unfolding load_balancers_of
  load_balancers_of-Holds Topology.shared namespace w h = st.reads w _ h
  load_balancers_of-Holds Topology.dedicated namespace w h = h
  load_balancers_of-Holds Topology.global namespace w h = st.reads w _ h

  pub write_status-Holds :
      (lb : LoadBalancer) (status : LoadBalancerStatus)
      → Holds P (write_status client same lb status)
  unfolding write_status
  write_status-Holds lb status w h = grind (arith, h, st.reads, st.writes)

module _ {S : Type 0} (client : Client S) (setup : Setup) (same : DeepEqual) (set_owner : SetOwner)
    (retry : Action S Unit → Action S Unit) (r : IsRetry retry) (P : World S → Type 0)
    (st : IsStable P) where
  pub checked_hostname-Holds :
      (lb : LoadBalancer) (hostname : Text) → Holds P (checked_hostname client same lb hostname)
  unfolding checked_hostname
  checked_hostname-Holds lb hostname w h = grind (arith, h, st.reads, st.writes)

  pub save_status-Holds :
      (lb : LoadBalancer) (service : Service) (status : LoadBalancerStatus)
      → Holds P (save_status client same retry lb service status)
  unfolding save_status
  save_status-Holds lb service status =
      if-Holds P (status_needs_update same lb service status)
        (retry (write_status client same lb status)) (pure tt)
        (r.keeps P (write_status client same lb status)
          (write_status-Holds client same set_owner P st lb status))
        (λ w h. h)

  pub check_and_save-Holds :
      (lb : LoadBalancer) (service : Service) (hostname : Text) (ports : List StatusPort)
      → Holds P (check_and_save client same retry lb service hostname ports)
  unfolding check_and_save save_checked
  check_and_save-Holds lb service hostname ports =
      >>=-Holds P (checked_hostname client same lb hostname)
        (save_checked client same retry lb service ports) (checked_hostname-Holds lb hostname)
        (λ checked. save_status-Holds lb service _)

  pub or_halt-Holds : {A : Type 0} (o : Option A) → Holds P (or_halt {S = S} o)
  or_halt-Holds none w h = h
  or_halt-Holds (some a) w h = h

  pub update_status_of-Holds :
      (es : List LoadBalancerEndpoints) (lb : LoadBalancer) (service : Service) (hostname : Text)
      → Holds P (update_status_of client same retry es lb service hostname)
  unfolding update_status_of
  update_status_of-Holds [] lb service hostname = λ w h. h
  update_status_of-Holds (e ∷ es) lb service hostname =
      >>=-Holds P (or_halt (status_ports e.ports 0 service.ports))
        (check_and_save client same retry lb service hostname)
        (or_halt-Holds (status_ports e.ports 0 service.ports))
        (check_and_save-Holds lb service hostname)

  pub hostname_step-Holds :
      (lb : LoadBalancer) (svc_name : Text) (t : TenantSpec) (c : ConfigSpec)
      (settings : AnnotationSettings)
      → Holds P (hostname_step client setup same set_owner retry lb svc_name t c settings)
  unfolding hostname_step
  hostname_step-Holds lb svc_name t c settings =
      if-Holds P (should_configure_hostname lb.meta.annotations lb.spec.hostname t c)
        (configure_hostname client same set_owner lb svc_name t c settings) (pure ([], lb))
        (configure_hostname-Holds client same set_owner P st lb svc_name t c settings) (λ w h. h)

  pub serve_service-Holds :
      (svc_name : Text) (t : TenantSpec) (c : ConfigSpec) (lb : LoadBalancer) (service : Service)
      → Holds P (serve_service client setup same set_owner retry svc_name t c lb service)
  unfolding serve_service report update_load_balancer_status
  serve_service-Holds svc_name t c lb service =
      >>=-Holds P
        (hostname_step client setup same set_owner retry lb svc_name t c (get_annotations t c))
        (report client setup same set_owner retry service)
        (hostname_step-Holds lb svc_name t c (get_annotations t c))
        (λ (hostname, named). update_status_of-Holds named.spec.endpoints named service hostname)

  pub serve_found-Holds :
      (svc_name namespace : Text) (t : TenantSpec) (c : ConfigSpec) (lb : LoadBalancer)
      → Holds P (serve_found client setup same set_owner retry svc_name namespace t c lb)
  unfolding serve_found
  serve_found-Holds svc_name namespace t c lb =
      >>=-Holds P (get client Kind.service (request svc_name (resource_namespace setup namespace)))
        (serve_service client setup same set_owner retry svc_name t c lb)
        (λ w h. grind (arith, h, st.reads, st.writes)) (serve_service-Holds svc_name t c lb)

  -- So the whole run does, once the ports are allocated.
  pub serve-Holds :
      (lb : LoadBalancer) (t : TenantSpec) (c : ConfigSpec) (namespace : Text)
      → Holds P (serve client setup same set_owner retry lb t c namespace)
  unfolding serve
  serve-Holds lb t c namespace =
      >>=-Holds P
        (reconcile_service client same lb (service_name setup.topology lb.meta)
          (envoy_snapshot_and_app_name setup.topology namespace).1
          (resource_namespace setup namespace) (class_name t c) (get_annotations t c))
        (serve_found client setup same set_owner retry (service_name setup.topology lb.meta)
          namespace t c)
        (reconcile_service-Holds client same set_owner P st lb _ _ _ _ _)
        (serve_found-Holds _ namespace t c)
