-- ===== src/LoadBalancerController/Services/Settled.antt =====
-- What `reconcileService` (internal/controllers/kubelb/loadbalancer_controller.go) writes, and that it
-- writes nothing to a service that is as it wrote it.
use kubelb_ce.Base.{◌≡◌, refl, arith, Option, some, List, ◌∷◌, true, false}
use kubelb_ce.Base.{◌&&◌, Bool, text_eq, ◌==◌, if◌then◌else◌, eq_refl}
use kubelb_ce.Base.Dict
use kubelb_ce.Base.Dict.{Dict}
use kubelb_ce.Base.Text.{Text}
use kubelb_ce.Api.{StringMap, ServicePort, Service, LoadBalancer, entries}
use kubelb_ce.Annotations.{merge_annotations, compare_annotations}
use kubelb_ce.Annotations.Again.{merge_annotations_again}
use kubelb_ce.Cluster.{Client, World, Answer, Result, Failure}
use kubelb_ce.Cluster.Records.{saved_services}
use kubelb_ce.Ports.{lookup}
use kubelb_ce.ServicePorts.{create_service_ports}
use kubelb_ce.LoadBalancerController.{DeepEqual}
use kubelb_ce.LoadBalancerController.Services.{
  with_merged_annotations, service_needs_update, updated_service, reconcile_found, no_service,
}

-- What the comparison of the library promises at the types that `reconcileService` compares.
pub record IsDeepEqual (same : DeepEqual) : Type 0 where
  pub sound :
      (a b : Dict Text Text)
      → same.dicts a b ≡ true
      → (k : Text) → Dict.lookup k a ≡ Dict.lookup k b
  pub complete :
      (a b : Dict Text Text)
      → ((k : Text) → Dict.lookup k a ≡ Dict.lookup k b)
      → same.dicts a b ≡ true
  pub maps : (m : StringMap) → same.maps m m ≡ true
  pub classes : (c : Option Text) → same.classes c c ≡ true
  pub ports : (ps : List ServicePort) → same.service_ports ps ps ≡ true

module _ (same : DeepEqual) (eq : IsDeepEqual same) where
  same_again :
      (desired : StringMap) (wanted : Dict Text Text)
      → desired ≡ some wanted
      → (existing : StringMap) → Dict.NodupKeys (entries existing)
      → Dict.NodupKeys wanted
      → let merged = merge_annotations same.dicts existing desired in
        compare_annotations same.dicts merged (merge_annotations same.dicts merged desired) ≡ true
  same_again desired wanted h existing u v =
      rw h (merge_annotations_again same.dicts eq.sound eq.complete existing wanted u v)

  -- The service that is there has the ports, the selector, the type, the class and the labels that
  -- are wanted, and merging the wanted annotations into its own gives its own.
  abbrev pub is_current : Service → Service → Bool
  is_current existing wanted =
      let merged = merge_annotations same.dicts existing.meta.annotations wanted.meta.annotations in
      same.service_ports existing.ports wanted.ports
      && (same.maps existing.selector wanted.selector
          && (existing.type == wanted.type
              && (same.classes existing.class wanted.class
                  && (same.maps existing.meta.labels wanted.meta.labels
                      && compare_annotations same.dicts existing.meta.annotations merged))))

  -- The service that is there with the specification and the labels that are wanted, and the wanted
  -- annotations merged into its own.
  abbrev pub settled : Service → Service → Service
  settled existing wanted =
      let merged = merge_annotations same.dicts existing.meta.annotations wanted.meta.annotations in
      let meta = record existing.meta { labels = wanted.meta.labels; annotations = merged } in
      record existing {
        meta = meta;
        type = wanted.type;
        ports = wanted.ports;
        selector = wanted.selector;
        cluster_ip = wanted.cluster_ip;
        class = wanted.class;
      }

  -- What is saved of the service that is wanted: where there was none, it; where there was one, that
  -- one brought to it, if it differs.
  abbrev pub Writes :
      {S : Type 0}
      → LoadBalancer
      → (List ServicePort → Service)
      → Answer Service
      → World S
      → Result Unit × World S
      → Type 0
  Writes lb desired (Answer.object existing) w (Result.ok _, w') =
      (ports : List ServicePort) × (create_service_ports (lookup w.ports) lb existing ≡ some ports)
      × (saved_services w'.writes ≡ (
          if is_current existing (desired ports)
          then saved_services w.writes
          else settled existing (desired ports) ∷ saved_services w.writes))
  Writes lb desired (Answer.failure _) w (Result.ok _, w') =
      (ports : List ServicePort) × (create_service_ports (lookup w.ports) lb no_service
        ≡ some ports)
      × (saved_services w'.writes ≡ desired ports ∷ saved_services w.writes)
  Writes lb desired found w (_, w') = saved_services w'.writes ≡ saved_services w.writes

  -- A service that was brought to the desired state needs no update when the same service is
  -- desired again, so two runs do not fight: where the comparisons of the library are reflexive,
  -- and that of maps says whether they hold the same values.
  pub service_needs_update_again :
      (existing desired : Service) (wanted : Dict Text Text)
      → desired.meta.annotations ≡ some wanted
      → Dict.NodupKeys (entries existing.meta.annotations)
      → Dict.NodupKeys wanted
      → let written =
          updated_service same existing (with_merged_annotations same existing desired) in
        service_needs_update same written (with_merged_annotations same written desired) ≡ false
  unfolding service_needs_update updated_service with_merged_annotations
  service_needs_update_again existing desired wanted h u v = ground (
    arith,
    same_again desired.meta.annotations wanted h existing.meta.annotations u v,
    eq.ports desired.ports,
    eq.maps desired.selector,
    eq_refl desired.type,
    eq.classes desired.class,
    eq.maps desired.meta.labels,
  )

  -- What is saved of a service, by what the read found and how the step ended. After a success:
  -- where there was none, the desired service with the ports made from the table of the allocator;
  -- where there was one that has the desired ports, selector, type, class, labels and annotations,
  -- nothing; where there was any other, it with these, the annotations merged into its own. After an
  -- error or a panic: nothing.
  pub saved-reconcile_found :
      {S : Type 0} (client : Client S) (lb : LoadBalancer) (desired : List ServicePort → Service)
      (found : Answer Service) (w : World S)
      → Writes lb desired found w (reconcile_found client same lb desired found w)
  unfolding reconcile_found saved_services service_needs_update updated_service
      with_merged_annotations
  saved-reconcile_found client lb desired (Answer.object existing) w = ground arith
  saved-reconcile_found client lb desired (Answer.failure Failure.not_found) w = ground arith
  saved-reconcile_found client lb desired (Answer.failure Failure.conflict) w = refl
  saved-reconcile_found client lb desired (Answer.failure Failure.failed) w = refl
