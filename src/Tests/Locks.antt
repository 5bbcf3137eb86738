-- ===== src/Tests/Locks.antt =====
-- A schedule of the locks under which a report says three acknowledged datagrams of one sent.
use chirpstack_udp_forwarder.Prelude.{◌+◌, ◌≡◌, [], ◌∷◌, ◌++◌, All, refl, arith, true, false}
use chirpstack_udp_forwarder.Forwarder.State.{State}
use chirpstack_udp_forwarder.Forwarder.Events.{events_stats}
use chirpstack_udp_forwarder.Forwarder.Locks.{
  waiting, Report, Locked, stats_token, stats_count, comparing, listening, draw_up, send_up,
  count_rxfw, count_up, take_rxfw, take_sent, take_acked, draw_stats, send_stats, count_stats,
  heard, compared, events_step, receiver_step, Run, here, next, quiet,
}
use chirpstack_udp_forwarder.Forwarder.Locks.Bounds.{IsClose, reports-IsClose}
use chirpstack_udp_forwarder.Forwarder.Locks.Conservation.{sum, counted, reports-sum}
use chirpstack_udp_forwarder.Forwarder.Locks.Handlers.{at_rest, report_of, handlers_as_runs}
use chirpstack_udp_forwarder.Tests.Instance.{scripted, plain-WritesJson}
use chirpstack_udp_forwarder.Tests.Forwarder.{start, world, stats}

abbrev begun : State
begun = record start { push_data_sent = 0; push_data_acked = 0; push_data_token = 0; rxfw = 0 }

-- Two frames are sent. The PUSH_ACK of the first was matched before the second was drawn, and is
-- counted, like that of the second, after the report has taken the counts and before it draws its
-- own token. Then the report is acknowledged in time for the next one.
abbrev first_report : Report
first_report = record { rxfw = 2; sent = 2; acked = 0 }

abbrev second_report : Report
second_report = record { rxfw = 0; sent = 1; acked = 3 }

abbrev after_frames : Locked
after_frames = record (quiet begun) {
  state = record begun { push_data_token = 2; push_data_sent = 2; rxfw = 2 };
  receiver = comparing 1 1;
  unanswered = true;
}

abbrev after_taken : Locked
after_taken = record after_frames {
  state = record begun { push_data_token = 2; push_data_acked = 2 };
  events = stats_token first_report;
  receiver = listening;
  unanswered = false;
}

abbrev after_reports : Locked
after_reports = record after_frames {
  state = record begun { push_data_token = 4 };
  events = stats_count;
  receiver = listening;
  unanswered = true;
  reports = first_report ∷ second_report ∷ [];
}

two_frames : Run (quiet begun) 9 after_frames
two_frames =
    next
      (next
        (next
          (next
            (next
              (next
                (next
                  (next (next (here) (events_step (draw_up 1 refl))) (events_step (send_up refl)))
                  (events_step (count_rxfw refl)))
                (events_step (count_up refl)))
              (receiver_step (heard 1 refl (λ h. refl))))
            (events_step (draw_up 2 refl)))
          (events_step (send_up refl)))
        (events_step (count_rxfw refl)))
      (events_step (count_up refl))

first_taken : Run (quiet begun) 15 after_taken
first_taken =
    next
      (next
        (next
          (next
            (next (next (two_frames) (events_step (take_rxfw refl)))
              (events_step (take_sent 2 refl)))
            (events_step (take_acked 2 2 refl)))
          (receiver_step (compared 1 1 refl)))
        (receiver_step (heard 2 refl (λ h. refl))))
      (receiver_step (compared 2 2 refl))

second_sent : Run (quiet begun) 25 after_reports
second_sent =
    next
      (next
        (next
          (next
            (next
              (next
                (next
                  (next
                    (next (next (first_taken) (events_step (draw_stats 3 (first_report) refl)))
                      (events_step (send_stats first_report refl)))
                    (events_step (count_stats refl)))
                  (receiver_step (heard 3 refl (λ h. refl))))
                (receiver_step (compared 3 3 refl)))
              (events_step (take_rxfw refl)))
            (events_step (take_sent 0 refl)))
          (events_step (take_acked 0 1 refl)))
        (events_step (draw_stats 4 second_report refl)))
      (events_step (send_stats second_report refl))

reports-IsClose_example : All IsClose (first_report ∷ second_report ∷ [])
reports-IsClose_example = reports-IsClose 25 begun after_reports second_sent refl refl (omega arith)

handlers_as_runs_example : Run (at_rest start false []) 6 (
    at_rest
      (events_stats scripted 0 77 stats (world [])).1.state
      true
      ([] ++ (report_of scripted start false [] ∷ [])))
handlers_as_runs_example =
    (handlers_as_runs scripted (world []) false [] plain-WritesJson refl).1 0 77 stats
      (λ (s, e, f). cc)

abbrev after_second : Locked
after_second = record after_reports {
  state = record begun { push_data_token = 4; push_data_sent = 1 };
  events = waiting;
}

second_counted : Run (quiet begun) 26 after_second
second_counted = next second_sent (events_step (count_stats refl))

reports-sum_example :
    (2 + 0 ≡ (sum (counted second_counted)).rxfw)
    × (3 + 1 ≡ (sum (counted second_counted)).sent)
    × (3 + 0 ≡ (sum (counted second_counted)).acked)
reports-sum_example =
    reports-sum 26 begun after_second second_counted refl refl refl (omega arith) refl
