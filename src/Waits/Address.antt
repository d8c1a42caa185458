-- ===== src/Waits/Address.antt =====
-- internal/harness/compose.go: the address that `Compose.Port` returns.
use e2e.Base.{
  ◌⊎◌, ◌<◌, ℕ, ◌*◌, ◌≡◌, ◌≢◌, refl, Option, none, some, [], ◌++◌, Text, lit, cut_prefix, trim_space,
  text_eq, arith, Option-cases, inl, inr, nat_eq,
}
use e2e.Base.Strings.{cut_prefix-append}
use e2e.Poll.{got}
use e2e.Poll.Deadline.{wait_got}
use e2e.Waits.{Probe, round_of, replace_host, dialable, published, port}

abbrev any4 : Text
any4 = lit "0.0.0.0:"

abbrev any6 : Text
any6 = lit "[::]:"

-- The address does not begin with a wildcard host.
abbrev pub IsDialable : Text → Type 0
IsDialable addr = (cut_prefix addr any4 ≡ none) × (cut_prefix addr any6 ≡ none)

loopback-IsDialable : (p : Text) → IsDialable (lit "127.0.0.1:" ++ p)
unfolding cut_prefix lit
loopback-IsDialable p = ground arith

replace_host_found : (host p : Text) → replace_host host (host ++ p) ≡ lit "127.0.0.1:" ++ p
unfolding replace_host
replace_host_found host p = rw (cut_prefix-append host p, replace_host)

-- The host is gone from the front, or the loopback host stands there.
replace_host_cases :
    (host addr : Text)
    → ((cut_prefix addr host ≡ none) × (replace_host host addr ≡ addr))
      ⊎ ((p : Text) × (replace_host host addr ≡ lit "127.0.0.1:" ++ p))
unfolding replace_host
replace_host_cases host addr = elim (Option-cases (cut_prefix addr host)) [
  | inl gone ↦ inl (gone, rw (gone, replace_host))
  | inr (p, e) ↦ inr (p, rw (e, replace_host))
]

replace_host_absent :
    (host addr : Text) → cut_prefix addr host ≡ none → replace_host host addr ≡ addr
unfolding replace_host
replace_host_absent host addr e = rw (e, replace_host)

any6-lacks_any4 : (p : Text) → cut_prefix (any6 ++ p) any4 ≡ none
unfolding cut_prefix lit
any6-lacks_any4 p = ground arith

replace_host-lacks_any4 : (addr : Text) → cut_prefix (replace_host any4 addr) any4 ≡ none
replace_host-lacks_any4 addr = elim (replace_host_cases any4 addr) [
  | inl (gone, same) ↦ rw same gone
  | inr (p, e) ↦ rw e (loopback-IsDialable p).0
]

dialable-IsDialable : (addr : Text) → IsDialable (dialable addr)
unfolding dialable
dialable-IsDialable addr = elim (replace_host_cases any6 (replace_host any4 addr)) [
  | inl (gone, same) ↦ rw same (replace_host-lacks_any4 addr, gone)
  | inr (p, e) ↦ rw e (loopback-IsDialable p)
]

published-some :
    (run : Option Text) (a : Text)
    → published run ≡ some a
    → (out : Text) × (run ≡ some out) × (trim_space out ≢ []) × (a ≡ dialable (trim_space out))
unfolding published
published-some none a h = cc
published-some (some out) a h = (out, refl, ground arith, ground arith)

-- An address that `Port` returns was printed by the first run that printed one at all. It is that
-- output without the white space around it, with a wildcard host replaced: it never begins with
-- `0.0.0.0:` or `[::]:`, so it can be dialled.
pub port-IsDialable :
    (run : ℕ → Probe (Option Text)) (a : Text) (t : ℕ)
    → port run ≡ some (got a t)
    → IsDialable a
      × (k : ℕ) × (out : Text) × ((run k).answer ≡ some out)
      × (trim_space out ≢ [])
      × (a ≡ dialable (trim_space out))
      × ((j : ℕ) → j < k → published (run j).answer ≡ none)
unfolding port
port-IsDialable run a t h =
    let (k, alive, found, quiet) =
      wait_got (60 * 1000) 500 (λ i. round_of published (run i)) a t (omega arith) h in
    let (out, ran, some_text, e) = published-some (run k).answer a found in
    (rw e (dialable-IsDialable (trim_space out)), k, out, ran, some_text, e, λ j lt. (quiet j lt).1)

-- The port survives: what stood behind the wildcard host stands behind the loopback host.
pub dialable_wildcard :
    (p : Text)
    → (dialable (any4 ++ p) ≡ lit "127.0.0.1:" ++ p)
      × (dialable (any6 ++ p) ≡ lit "127.0.0.1:" ++ p)
unfolding dialable
dialable_wildcard p = (
  rw (replace_host_found any4 p) (replace_host_absent any6 _ (loopback-IsDialable p).1),
  rw (replace_host_absent any4 (any6 ++ p) (any6-lacks_any4 p)) (replace_host_found any6 p),
)
