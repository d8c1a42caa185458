-- ===== src/Tests/Documents.antt =====
-- A signed owner document, and the theorem at a concrete input.
use e2e.Base.{◌≡◌, refl, some, [], ◌∷◌, ◌++◌, Text, lit, text_eq, text_dec, ℕ_discrete}
use e2e.Base.Maps.{Map, insert}
use e2e.Run.{done, ◌>>=◌}
use e2e.Owners.{Owner, Documents, method_id, owner_fields, signed_owner_doc}
use e2e.Owners.Signed.{IsSelfSigned, signed_owner_doc-IsSelfSigned}

unfoldable pub joined : Map Text → Text
joined [] = []
joined ((key, value) ∷ members) = key ++ (lit "=" ++ (value ++ (lit ";" ++ joined members)))

abbrev pub docs : Documents
docs = record {
  Method = Text;
  Value = Text;
  Proof = Text;
  contexts = lit "c" ∷ [];
  suite = lit "s";
  multikey = λ id controller key. some (id ++ key);
  body = λ fields. (lit "id", fields.id) ∷ [];
  create_proof = λ dir subject id method members suite. some (subject ++ joined members);
  marshal_proof = λ proof. some proof;
  unmarshal = λ text. some text;
  marshal = λ members. some (joined members);
}

abbrev owner : Owner
owner = record { did = lit "o"; key_dir = lit "/k"; public_key = lit "K" }

abbrev text : Text
text = lit "id=o;proof=oid=o;;"

signs : signed_owner_doc docs {S = Unit {0}} owner tt ≡ (done text, tt)
unfolding signed_owner_doc owner_fields method_id joined insert ◌>>=◌ lit text_eq text_dec
    ℕ_discrete
signs = refl

signed_owner_doc-IsSelfSigned_example : IsSelfSigned docs owner text
signed_owner_doc-IsSelfSigned_example =
    signed_owner_doc-IsSelfSigned docs {S = Unit {0}} owner tt tt text signs
