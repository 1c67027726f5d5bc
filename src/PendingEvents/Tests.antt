-- ===== src/PendingEvents/Tests.antt =====
-- Events recorded and taken, and the theorem at one of them.
use solid_syslog.Base.{true, false, ◌≡◌, refl, arith, replicate}
use solid_syslog.PendingEvents.{
  ErrorEvent, kind_count, empty_slot, index_loop, index_of, record_event, any_loop, any_pending,
}
use solid_syslog.PendingEvents.RoundTrip.{TakesBack, take_event-record_event}

-- a refused record, at the severity of an alert
abbrev records_lost : ErrorEvent
records_lost = record {
  severity = 1;
  source = 7;
  category = 0x0602;
  detail = 3;
  has_native_code = true;
  native_code = 110;
}

-- of a kind that is not reported
abbrev unreported : ErrorEvent
unreported = record records_lost { category = 0x0202 }

kind_is_reported : index_of 0x0602 ≡ 6
unfolding index_of index_loop
kind_is_reported = refl

nothing_recorded : any_pending (record_event unreported (replicate kind_count empty_slot)) ≡ false
unfolding any_pending any_loop record_event index_of index_loop
nothing_recorded = refl

something_recorded :
    any_pending (record_event records_lost (replicate kind_count empty_slot)) ≡ true
unfolding any_pending any_loop record_event index_of index_loop
something_recorded = refl

take_event-record_event_example :
    TakesBack records_lost (replicate kind_count empty_slot) unreported
take_event-record_event_example =
    take_event-record_event records_lost (replicate kind_count empty_slot) unreported refl
      (omega (arith, kind_is_reported)) (omega arith)
