-- ===== src/Tests/WaitLoops.antt =====
-- The wait loops at concrete environments.
use e2e.Base.{
  ℕ, ◌<◌, ◌≡◌, ◌≢◌, refl, Bool, false, Option, none, some, List, [], ◌∷◌, Text, lit, leb, ltb,
  if◌then◌else◌, trim_space, ℕ_discrete, text_eq, text_dec, cut_prefix, arith,
}
use e2e.Poll.{Round, Ended, got, died, wait}
use e2e.Waits.{
  healthy, replace_host, Probe, Reply, failed, replied, wait_healthy, wait_http_healthy,
  wait_for_subscriber, wait_for_subscriber_http, port, published, dialable,
}
use e2e.Waits.Ready.{IsOk, HealthyEnd, wait_healthy_ends}
use e2e.Waits.Subscribers.{FirstEnd, Lists, Names, waits_end}
use e2e.Waits.Patience.{wait_healthy_patient}
use e2e.Poll.Bounds.{IsTimely, wait-IsTimely}
use e2e.Waits.Address.{IsDialable, port-IsDialable}

abbrev slow : ℕ → Round ℕ
slow i = record { exited = false; found = if ltb i 3 then none else some i; cost = 10 }

slow-wait : wait 1000 5 slow ≡ some (got 3 55)
unfolding wait
slow-wait = refl

abbrev alive : ℕ → Bool
alive i = false

-- Three refused connections, then a 503, then a 200.
abbrev booting : ℕ → Probe Reply
booting i = record {
  answer = if ltb i 3 then failed else if ltb i 4 then replied 503 none else replied 200 none;
  took = 1;
}

boots : wait_healthy alive booting ≡ some (got tt 805)
unfolding wait_healthy ℕ_discrete
boots = refl

dies : wait_healthy (λ i. leb 2 i) booting ≡ some (died 402)
unfolding wait_healthy ℕ_discrete
dies = refl

wait_healthy_ends_example :
    (r : Ended (Unit {0})) × (wait_healthy alive booting ≡ some r) × HealthyEnd alive booting r
wait_healthy_ends_example = wait_healthy_ends alive booting

abbrev broker : ℕ → Probe (Option (List Text))
broker i = record {
  answer = if ltb i 2 then none else some (lit "a" ∷ lit "ingest" ∷ []);
  took = 0;
}

abbrev monitor : ℕ → Probe Reply
monitor i = record { answer = replied 200 (some (lit "{\"subject\":\"ingest\"}")); took = 2 }

waits_end_example :
    ((r : Ended (Unit {0})) × (wait_for_subscriber (lit "ingest") 30000 broker ≡ some r)
      × FirstEnd (Lists (lit "ingest")) 30000 100 broker r)
    × ((r : Ended (Unit {0})) × (wait_for_subscriber_http (lit "ingest") 30000 monitor ≡ some r)
        × FirstEnd (Names (lit "ingest")) 30000 200 monitor r)
    × ((r : Ended (Unit {0})) × (wait_http_healthy 30000 booting ≡ some r)
        × FirstEnd IsOk 30000 300 booting r)
waits_end_example = waits_end (lit "ingest") 30000 broker monitor booting

abbrev docker : ℕ → Probe (Option Text)
docker i = record { answer = if ltb i 1 then none else some (lit "0.0.0.0:32768\n"); took = 40 }

docker-port : port docker ≡ some (got (lit "127.0.0.1:32768") 580)
unfolding port dialable replace_host trim_space cut_prefix lit text_eq text_dec ℕ_discrete
docker-port = refl

port-IsDialable_example :
    IsDialable (lit "127.0.0.1:32768")
    × (k : ℕ) × (out : Text) × ((docker k).answer ≡ some out)
    × (trim_space out ≢ [])
    × (lit "127.0.0.1:32768" ≡ dialable (trim_space out))
    × ((j : ℕ) → j < k → published (docker j).answer ≡ none)
port-IsDialable_example = port-IsDialable docker (lit "127.0.0.1:32768") 580 docker-port

wait-IsTimely_example : (r : Ended ℕ) × (wait 1000 5 slow ≡ some r) × IsTimely 1000 5 slow r
wait-IsTimely_example = wait-IsTimely 1000 5 slow (omega arith)

booted : healthy (booting 4).answer ≡ some tt
unfolding healthy ℕ_discrete
booted = refl

wait_healthy_patient_example : (t : ℕ) × (wait_healthy alive booting ≡ some (got tt t))
wait_healthy_patient_example =
    wait_healthy_patient alive booting 4 (λ i. refl) (λ i. omega arith) booted (omega arith)
