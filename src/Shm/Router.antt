-- ===== src/Shm/Router.antt =====
-- The dispatch of the requests of the local nodes: UdsRouter::handle of
-- src/Master/src/shm/UdsRouter.cpp and the handlers of src/Master/src/shm/controller. An exception of
-- std::stoi that escapes is `none`, as is a null pointer that is dereferenced.
use mid_napi.Prelude.{
  Bool, Option, none, some, ◌>>=◌, [], Bytes, codes, ◌≟◌, bytes_eq, if◌then◌else◌,
}
use mid_napi.Http.{Verb, get, post, delete, HttpLibrary}
use mid_napi.Shm.{queue_size, Master}
use mid_napi.Shm.Library.{SharedLibrary}
use mid_napi.Shm.Answers.{TextLibrary, node_lists, topic_lists, topic_answer}
use mid_napi.Shm.Controllers.{
  RunResults, add_local_node, add_local_pub, add_local_sub, delete_local_node,
}

pub data Status : Type 0 where
  ok bad_request not_found : Status

pub record Response : Type 0 where
  pub result : Status
  pub body : Bytes

abbrev pub answer : Status → Response
answer status = record { result = status; body = [] }

abbrev pub answer_bool : Bool → Response
answer_bool done = answer (if done then ok else bad_request)

module _ (http : HttpLibrary) (lib : SharedLibrary queue_size) (texts : TextLibrary) where
  open http use {Request, method, target, field}

  abbrev pub Handler : Type 0
  Handler =
      RunResults http lib → Request → Master lib Request → Option (Response × Master lib Request)

  abbrev pub answered : Option (Bool × Master lib Request) → Option (Response × Master lib Request)
  answered result = do (done, m) ← result; some (answer_bool done, m)

  unfoldable pub handle_node_post : Handler
  unfolding add_local_node
  handle_node_post r req m = do
    pid ← texts.stoi (field req (codes "pid"))
    answered (add_local_node http lib (field req (codes "node")) pid m)

  unfoldable pub handle_node_get : Handler
  unfolding node_lists
  handle_node_get r req m =
      some (record { result = ok; body = texts.write_lists (node_lists lib m) }, m)

  unfoldable pub handle_node_delete : Handler
  unfolding delete_local_node
  handle_node_delete r req m = answered (delete_local_node http lib (field req (codes "node")) m)

  unfoldable pub handle_pub_post : Handler
  unfolding add_local_pub
  handle_pub_post r req m = do
    eventfd ← texts.stoi (field req (codes "eventfd"))
    answered (
        add_local_pub http lib r (field req (codes "node")) (field req (codes "pub"))
          (field req (codes "type")) m)

  unfoldable pub handle_sub_post : Handler
  unfolding add_local_sub
  handle_sub_post r req m = do
    eventfd ← texts.stoi (field req (codes "eventfd"))
    answered (
        add_local_sub http lib r (field req (codes "node")) (field req (codes "sub"))
          (field req (codes "type")) m)

  unfoldable pub handle_topic_get : Handler
  unfolding topic_lists
  handle_topic_get r req m =
      some (record { result = ok; body = texts.write_lists (topic_lists lib m) }, m)

  unfoldable pub handle_topic_info : Handler
  unfolding topic_answer
  handle_topic_info r req m =
      let topic = field req (codes "topic") in
      elim (topic_answer lib topic m) [
        | none ↦ some (answer bad_request, m)
        | some info ↦ some (record { result = ok; body = texts.write_topic topic info }, m)
      ]

  -- The handlers that CONTROLLER_REGISTER enters for a path and a verb.
  unfoldable pub local_controller : Bytes → Verb → Option Handler
  local_controller path verb =
      if path ≟ codes "/node"
      then (elim verb [
        | post ↦ some handle_node_post
        | get ↦ some handle_node_get
        | delete ↦ some handle_node_delete
        | _ ↦ none
      ])
      else if path ≟ codes "/node/pub"
      then (elim verb [ post ↦ some handle_pub_post | _ ↦ none ])
      else if path ≟ codes "/node/sub"
      then (elim verb [ post ↦ some handle_sub_post | _ ↦ none ])
      else if path ≟ codes "/topic"
      then (elim verb [ get ↦ some handle_topic_get | _ ↦ none ])
      else if path ≟ codes "/topic/info"
      then (elim verb [ get ↦ some handle_topic_info | _ ↦ none ])
      else none

  unfoldable pub handle_local : Handler
  unfolding local_controller handle_node_post handle_node_get handle_node_delete handle_pub_post
      handle_sub_post handle_topic_get handle_topic_info
  handle_local r req m = elim (local_controller (target req) (method req)) [
    | none ↦ some (answer not_found, m)
    | some f ↦ f r req m
  ]
