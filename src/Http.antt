-- ===== src/Http.antt =====
-- What the program uses of boost::beast::http: a request with a string body. The library is not
-- part of the repository, so it is a parameter, with the documented behaviour of its members.
pub mod Sample
use mid_napi.Prelude.{◌+◌, ◌≢◌, ◌&&◌, leb, if◌then◌else◌, [], ◌∷◌, ◌≡◌, Bytes, codes}

pub data Verb : Type 0 where
  get post put delete unknown : Verb

-- The ASCII letters of a header name in lower case.
abbrev pub lower : Bytes → Bytes
lower [] = []
lower (c ∷ s) = (if leb b'A' c && leb c b'Z' then c + 32 else c) ∷ lower s

pub record HttpLibrary : Type 1 where
  -- http::request<http::string_body>
  pub Request : Type 0
  -- A default-constructed request.
  pub blank : Request
  pub method : Request → Verb
  pub target : Request → Bytes
  pub body : Request → Bytes
  -- `req[name]`, the empty text for a name that is not set.
  pub field : Request → Bytes → Bytes
  pub set_method : Verb → Request → Request
  pub set_target : Bytes → Request → Request
  pub set_body : Bytes → Request → Request
  -- `req.set(name, value)`
  pub set : Bytes → Bytes → Request → Request
  pub prepare_payload : Request → Request
  -- `oss << req`
  pub wire : Request → Bytes
  pub field-set_self : (n v : Bytes) (r : Request) → field (set n v r) n ≡ v
  -- Names are compared without regard to case.
  pub field-set_other :
      (n n' v : Bytes) (r : Request) → lower n ≢ lower n' → field (set n v r) n' ≡ field r n'
  pub method-set : (n v : Bytes) (r : Request) → method (set n v r) ≡ method r
  pub target-set : (n v : Bytes) (r : Request) → target (set n v r) ≡ target r
  pub body-set : (n v : Bytes) (r : Request) → body (set n v r) ≡ body r
  pub body-set_body : (b : Bytes) (r : Request) → body (set_body b r) ≡ b
  pub method-set_body : (b : Bytes) (r : Request) → method (set_body b r) ≡ method r
  pub target-set_body : (b : Bytes) (r : Request) → target (set_body b r) ≡ target r
  pub method-set_method : (v : Verb) (r : Request) → method (set_method v r) ≡ v
  pub target-set_method : (v : Verb) (r : Request) → target (set_method v r) ≡ target r
  pub method-set_target : (t : Bytes) (r : Request) → method (set_target t r) ≡ method r
  pub target-set_target : (t : Bytes) (r : Request) → target (set_target t r) ≡ t
  -- It sets Content-Length or Transfer-Encoding only.
  pub field-prepare_payload :
      (n : Bytes) (r : Request)
      → lower n ≢ lower (codes "Content-Length")
      → lower n ≢ lower (codes "Transfer-Encoding")
      → field (prepare_payload r) n ≡ field r n
  pub body-prepare_payload : (r : Request) → body (prepare_payload r) ≡ body r
  pub method-prepare_payload : (r : Request) → method (prepare_payload r) ≡ method r
  pub target-prepare_payload : (r : Request) → target (prepare_payload r) ≡ target r
