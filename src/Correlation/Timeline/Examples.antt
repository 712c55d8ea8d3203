-- ===== src/Correlation/Timeline/Examples.antt =====
-- The timeline of a tunnel.
use net_sleuth_ai.Shared.{◌+◌, ◌≡◌, refl, Bool, List, [], ◌∷◌, map, present, ok, Ordered, count}
use net_sleuth_ai.Correlation.Samples.{at, network, found, dns_event}
use net_sleuth_ai.Correlation.Investigation.Context.{TimelineEvent}
use net_sleuth_ai.Correlation.Observations.{observed}
use net_sleuth_ai.Correlation.Timeline.{
  finding_event, protocol_event, artifact_event, protocol_timeline, key_leb, reconstruct,
}
use net_sleuth_ai.Correlation.Timeline.Events.{firsts, protocol_timeline-firsts}
use net_sleuth_ai.Correlation.Timeline.Order.{reconstruct-IsComplete}

protocol_timeline-firsts_example :
    protocol_timeline (dns_event ∷ dns_event ∷ []) []
    ≡ map protocol_event (firsts (present (map observed (dns_event ∷ dns_event ∷ []))))
protocol_timeline-firsts_example = protocol_timeline-firsts (dns_event ∷ dns_event ∷ [])

reconstruct-IsComplete_example :
    (events : List TimelineEvent) × (reconstruct (at 99) network found ≡ ok events)
    × Ordered key_leb events
    × ((p : TimelineEvent → Bool)
        → count p events
          ≡ count p (map (finding_event (at 99) network.flows) found.findings)
            + (count p
                  (map protocol_event (firsts (present (map observed network.protocol_events))))
                + count p (map (artifact_event (at 99)) network.artifacts)))
reconstruct-IsComplete_example =
    reconstruct-IsComplete (at 99) network found refl (refl, (refl, tt)) (refl, tt)
