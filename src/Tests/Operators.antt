-- ===== src/Tests/Operators.antt =====
-- Operators, a host and a broker to run the provisioning on.
use e2e.Base.{
  ℕ, ◌+◌, ◌≡◌, refl, ap, sym, ◌∙◌, arith, Bool, true, false, Option, none, some, [], ◌∷◌, ◌++◌,
  Text, lit, text_eq,
}
use e2e.Base.Maps.{Map, lookup, insert, lookup-insert}
use e2e.Base.Strings.{cut_suffix}
use e2e.Disk.{Host}
use e2e.Accounts.{Operators, jwt_file}
use e2e.Accounts.Published.{Has}
use e2e.Nats.{Brokers}

abbrev pub host : Host
host = record {
  can_make = λ _. true;
  can_write = λ _. true;
  can_read = λ _. true;
  can_chmod = λ _. true;
  stat = λ path. some (elim (cut_suffix path (lit ".jwt")) [ none ↦ true | some _ ↦ false ]);
}

pub record World : Type 0 where
  pub made : ℕ
  pub jwts : Map Text

abbrev publish : Text → Text → World → Bool × World
publish key jwt w = (true, record w { jwts = insert (jwt_file key) jwt w.jwts })

abbrev pub operators : Operators
operators = record {
  World = World;
  create_operator = λ w. (some (lit "SO", lit "O"), w);
  create_account = λ w. (some (lit "SA", (b'A' + w.made) ∷ []), record w { made = w.made + 1 });
  encode_operator = λ key name seed. some (key ++ name);
  new_operator = λ seed trust w. (true, w);
  publish_claims = λ key w. publish key (lit "bare") w;
  add_export = λ key subject w. publish key (lit "export " ++ subject) w;
  add_import = λ key exporter subject w. publish key (lit "import " ++ subject) w;
  jwts = λ w. w.jwts;
  remove_jwts = λ w. record w { jwts = [] };
}

Has-insert :
    (key jwt file : Text) (w : World)
    → Has operators file w
    → Has operators file (publish key jwt w).1
Has-insert key jwt file w (old, held) = elim (text_eq.dec (jwt_file key) file) [
  | yes same ↦ (jwt, ground (arith, lookup-insert (jwt_file key) file jwt w.jwts, same))
  | no apart ↦ (old, ground (arith, lookup-insert (jwt_file key) file jwt w.jwts, held, apart))
]

pub operators_IsLawful : e2e.Accounts.Published.IsLawful operators
operators_IsLawful = record {
  publish_claims-Has = λ key w ok.
      (lit "bare", ground (arith, lookup-insert (jwt_file key) (jwt_file key) (lit "bare") w.jwts));
  publish_claims-kept = λ key w file held. Has-insert key (lit "bare") file w held;
  create_account-kept = λ w file held. held;
  new_operator-kept = λ seed trust w file held. held;
}

pub record State : Type 0 where
  pub stored : Map Text
  pub live : Map Text

abbrev pub broker : Brokers
broker = record {
  State = State;
  Live = Text;
  Claims = Text;
  new_resolver = record { stored = []; live = [] };
  run_server = λ trusted s. s;
  client_url = λ s. lit "nats://127.0.0.1:4222";
  store = λ key jwt s. (true, record s { stored = insert key jwt s.stored });
  stored = λ key s. lookup key s.stored;
  lookup_account = λ key s. (elim (lookup key s.live) [ none ↦ none | some _ ↦ some key ], s);
  decode = λ jwt. some jwt;
  update_claims = λ acc claims s. record s { live = insert acc claims s.live };
  live_claims = λ key s. lookup key s.live;
}

found_none :
    (key : Text) (o : Option Text)
    → ◌≡◌ {A = Option Text} (elim o [ none ↦ none | some _ ↦ some key ]) none
    → o ≡ none
found_none key none e = refl
found_none key (some c) e = absurd (ground (arith, e))

found_some :
    (key acc : Text) (o : Option Text)
    → ◌≡◌ {A = Option Text} (elim o [ none ↦ none | some _ ↦ some key ]) (some acc)
    → key ≡ acc
found_some key acc none e = absurd (ground (arith, e))
found_some key acc (some c) e = cc e

pub broker_IsLawful : e2e.Nats.Bridged.IsLawful broker
broker_IsLawful = record {
  run_server-stored = λ trusted other s. refl;
  store-stored = λ key jwt s s' e other.
      ap (λ r. lookup other r.1.stored) (sym e) ∙ lookup-insert key other jwt s.stored;
  lookup_account-stored = λ key other s. refl;
  update_claims-stored = λ acc c other s. refl;
  lookup_account-none = λ key s e. found_none key (lookup key s.live) e;
  lookup_account-live = λ key other s apart. refl;
  update_claims-live = λ key other acc c s found.
      rw (found_some key acc (lookup key s.live) found) (lookup-insert acc other c s.live);
}
