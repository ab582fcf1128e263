-- ===== src/Http/Sample.antt =====
-- A library of requests that can be evaluated: it shows that the documented behaviour which
-- HttpLibrary asks of boost::beast can hold, and the tests run on it.
use mid_napi.Prelude.{
  ℕ, sym, ◌+◌, ◌/◌, ◌%◌, ◌≡◌, refl, Option, none, some, List, [], ◌∷◌, ◌++◌, Bytes, codes, length,
  if◌then◌else◌, ltb, lookup, insert, lookup-insert, bytes_eq, beq_refl, ap, ◌≢◌, ◌≟◌, beq→eq,
  Bool-cases, inl, inr, false,
}
use mid_napi.Http.{Verb, get, post, put, delete, unknown, lower, HttpLibrary}

pub record Message : Type 0 where
  pub verb : Verb
  pub path : Bytes
  pub fields : List (Bytes × Bytes)
  pub content : Bytes

abbrev pub verb_name : Verb → Bytes
verb_name get = codes "GET"
verb_name post = codes "POST"
verb_name put = codes "PUT"
verb_name delete = codes "DELETE"
verb_name unknown = codes "UNKNOWN"

abbrev pub value_or_empty : Option Bytes → Bytes
value_or_empty none = []
value_or_empty (some v) = v

abbrev pub field_lines : List (Bytes × Bytes) → Bytes
field_lines [] = []
field_lines ((n, v) ∷ fs) = n ++ (codes ": " ++ (v ++ 13 ∷ 10 ∷ field_lines fs))

abbrev pub message_wire : Message → Bytes
message_wire m =
    verb_name m.verb
    ++ (codes " "
        ++ (m.path
            ++ (codes " HTTP/1.1" ++ 13 ∷ 10 ∷ (field_lines m.fields ++ 13 ∷ 10 ∷ m.content))))

abbrev pub set_field : Bytes → Bytes → Message → Message
set_field n v m = record m { fields = insert n v m.fields }

-- A length below 100.
abbrev pub short_decimal : ℕ → Bytes
short_decimal n = if ltb n 10 then (b'0' + n) ∷ [] else (b'0' + n / 10) ∷ (b'0' + n % 10) ∷ []

pub get_field-set_field :
    (n v : Bytes) (m : Message) → value_or_empty (lookup n (set_field n v m).fields) ≡ v
get_field-set_field n v m = rw (lookup-insert n n v m.fields, beq_refl n)

pub get_field-set_field_other :
    (n n' v : Bytes) (m : Message)
    → lower n ≢ lower n'
    → value_or_empty (lookup n' (set_field n v m).fields) ≡ value_or_empty (lookup n' m.fields)
get_field-set_field_other n n' v m h = rw (lookup-insert n n' v m.fields, other) refl
  where
    other : (n ≟ n') ≡ false
    other = elim (Bool-cases (n ≟ n')) [
      | inl same ↦ absurd (h (ap lower (beq→eq n n' same)))
      | inr different ↦ different
    ]

abbrev pub sample : HttpLibrary
sample = record {
  Request = Message;
  blank = record { verb = unknown; path = []; fields = []; content = [] };
  method = λ m. m.verb;
  target = λ m. m.path;
  body = λ m. m.content;
  field = λ m n. value_or_empty (lookup n m.fields);
  set_method = λ v m. record m { verb = v };
  set_target = λ t m. record m { path = t };
  set_body = λ b m. record m { content = b };
  set = set_field;
  prepare_payload = λ m. set_field (codes "Content-Length") (short_decimal (length m.content)) m;
  wire = message_wire;
  field-set_self = get_field-set_field;
  field-set_other = get_field-set_field_other;
  method-set = λ n v r. refl;
  target-set = λ n v r. refl;
  body-set = λ n v r. refl;
  body-set_body = λ b r. refl;
  method-set_body = λ b r. refl;
  target-set_body = λ b r. refl;
  method-set_method = λ v r. refl;
  target-set_method = λ v r. refl;
  method-set_target = λ t r. refl;
  target-set_target = λ t r. refl;
  field-prepare_payload = λ n r h h'. get_field-set_field_other _ n _ r (λ e. h (sym e));
  body-prepare_payload = λ r. refl;
  method-prepare_payload = λ r. refl;
  target-prepare_payload = λ r. refl;
}

-- A subscription of a remote node.
abbrev pub sub_request : Message
sub_request = record {
  verb = post;
  path = codes "/NodeSub";
  fields = (codes "Node", codes "n1") ∷ [];
  content = codes "a\\b";
}
