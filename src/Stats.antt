-- ===== src/Stats.antt =====
-- mirror-agent/stats.go: agentStats, the counters that every part of the agent adds to, and the
-- summary line. A counter is a number: its int64 wraps only after 2^63 events.
pub mod Printed
use mirror_agent.Base.{ℕ, ◌++◌, Bytes, codes}
use mirror_agent.Go.Strconv.{decimal}

pub record Stats : Type 0 where
  pub packets_received : ℕ
  pub packets_dropped : ℕ
  pub streams_reaped : ℕ
  pub parse_errors : ℕ
  pub reqs_assembled : ℕ
  pub mirrors_skipped : ℕ
  pub mirrors_sent : ℕ
  pub mirrors_2xx : ℕ
  pub mirrors_4xx : ℕ
  pub mirrors_5xx : ℕ
  pub mirrors_error : ℕ

abbrev pub zeroed : Stats
zeroed = record {
  packets_received = 0;
  packets_dropped = 0;
  streams_reaped = 0;
  parse_errors = 0;
  reqs_assembled = 0;
  mirrors_skipped = 0;
  mirrors_sent = 0;
  mirrors_2xx = 0;
  mirrors_4xx = 0;
  mirrors_5xx = 0;
  mirrors_error = 0;
}

-- The line that printStats logs, behind the logger's time stamp.
unfoldable pub print_stats : Stats → Bytes
print_stats s =
    codes "STATS  packets(recv="
    ++ (decimal s.packets_received
        ++ (codes " drop="
            ++ (decimal s.packets_dropped
                ++ (codes ")  streams(reaped="
                    ++ (decimal s.streams_reaped
                        ++ (codes " parseErr="
                            ++ (decimal s.parse_errors
                                ++ (codes " assembled="
                                    ++ (decimal s.reqs_assembled
                                        ++ (codes ")  mirrors(skipped="
                                            ++ (decimal s.mirrors_skipped
                                                ++ (codes " sent="
                                                    ++ (decimal s.mirrors_sent
                                                        ++ (codes " 2xx="
                                                            ++ (decimal s.mirrors_2xx
                                                            ++ (codes " 4xx="
                                                            ++ (decimal s.mirrors_4xx
                                                            ++ (codes " 5xx="
                                                            ++ (decimal s.mirrors_5xx
                                                            ++ (codes " netErr="
                                                            ++ (decimal s.mirrors_error
                                                            ++ codes ")")))))))))))))))))))))
