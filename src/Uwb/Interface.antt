-- ===== src/Uwb/Interface.antt =====
-- The radio as an interface of the manager: UwbInterface and UwbHostInterface of
-- src/Master/src/uwb, and send_http and get_stats of UwbHandle.cpp. The handle is `none` for a null
-- pointer, which `broadcast` dereferences: its result is `none` then. `stoi` is std::stoi with its result cast to
-- uint8_t, `none` where it throws: a function of the C++ library.
use mid_napi.Prelude.{
  ℕ, ◌≡◌, refl, ap, ◌∙◌, le→not-ltb, Bool, List, true, false, ◌≤◌, Option, none, some, [], ◌∷◌,
  Bytes, codes, length,
}
use mid_napi.Http.{HttpLibrary}
use mid_napi.Uwb.Frame.{broadcast_id, new_frame, data_frame}
use mid_napi.Uwb.Http.{serialize_http_request}
use mid_napi.Uwb.Link.{Stats, no_stats, Handle, new_handle, run, call_back}
use mid_napi.Uwb.Link.Messages.{send_http_reliable, tell, queue_frame}

-- UwbInterface::run; a second call is ignored. `opened` and `ready` are what `run` of the handle finds.
unfoldable pub run_interface :
    {Request : Type 0} → ℕ → Bool → Bool → Option (Handle Request) → Option (Handle Request)
run_interface node_id opened ready none = some (run opened ready (new_handle node_id))
run_interface node_id opened ready (some h) = some h

unfoldable pub get_stats : {Request : Type 0} → Handle Request → Stats
get_stats h = h.stats

-- UwbInterface::getStats
unfoldable pub interface_stats : {Request : Type 0} → Option (Handle Request) → Stats
unfolding get_stats
interface_stats none = no_stats
interface_stats (some h) = get_stats h

module _ (lib : HttpLibrary) where
  open lib use {Request, field, prepare_payload}

  unfoldable pub send_http : Request → ℕ → ℕ → Handle Request → Handle Request
  send_http req dst_id now h = send_http_reliable lib req dst_id none now h

  -- The receiver that `broadcast` takes from the header.
  unfoldable pub target_of : (Bytes → Option ℕ) → Request → ℕ
  target_of stoi req = elim (field req (codes "target_node")) [
    | [] ↦ broadcast_id
    | (c ∷ s) ↦ elim (stoi (c ∷ s)) [ none ↦ broadcast_id | some node ↦ node ]
  ]

  -- UwbInterface::broadcast
  unfoldable pub broadcast_frame :
      (Bytes → Option ℕ) → Request → ℕ → Option (Handle Request) → Option (Handle Request)
  unfolding target_of
  broadcast_frame stoi req now none = none
  broadcast_frame stoi req now (some h) =
      some (send_http_reliable lib req (target_of stoi req) none now h)

  -- UwbHostInterface::send_reliable: the handle then, and the calls it makes itself.
  unfoldable pub send_reliable :
      Request
      → ℕ
      → Option ℕ
      → ℕ
      → Option (Handle Request)
      → Option (Handle Request) × List (ℕ × Bool)
  unfolding call_back
  send_reliable req target_node callback now none = (none, call_back callback false [])
  send_reliable req target_node callback now (some h) =
      (some (send_http_reliable lib (prepare_payload req) target_node callback now h), [])

  -- UwbHostInterface::send
  unfoldable pub send_to_host :
      ℕ → Request → ℕ → Option (Handle Request) → Option (Handle Request) × List (ℕ × Bool)
  unfolding send_reliable
  send_to_host node_id req now h = send_reliable req node_id none now h

  -- On a running handle, a request of at most 65535 bytes without a target goes to all nodes: it is
  -- queued as a broadcast with the next sequence number, and nothing is waited for.
  pub broadcast_frame_to_all :
      (stoi : Bytes → Option ℕ) (req : Request) (now : ℕ) (h : Handle Request)
      → field req (codes "target_node") ≡ []
      → h.running ≡ true
      → length (serialize_http_request lib req) ≤ 65535
      → broadcast_frame stoi req now (some h)
        ≡ some (
            queue_frame
              (new_frame h.node_id broadcast_id h.next_seq data_frame
                (serialize_http_request lib req))
              h)
  unfolding broadcast_frame target_of send_http_reliable tell
  broadcast_frame_to_all stoi req now h f r fits =
      let size = length (serialize_http_request lib req) in
      let to_all : target_of stoi req ≡ broadcast_id = rw (f, target_of) refl in
      ap (λ dst. some (send_http_reliable lib req dst none now h)) to_all
      ∙ ap some (simp (r, le→not-ltb 65535 size fits) refl)
