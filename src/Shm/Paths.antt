-- ===== src/Shm/Paths.antt =====
-- The table of the controllers of local requests, as a lemma: what holds of each handler that is
-- registered in src/Master/src/shm/controller holds of the one that UdsRouter finds.
use mid_napi.Prelude.{
  Bool, true, false, Option, none, some, Bytes, codes, ◌≟◌, bytes_eq, if◌then◌else◌, if_either,
}
use mid_napi.Http.{Verb, get, post, put, delete, unknown, HttpLibrary}
use mid_napi.Shm.{queue_size}
use mid_napi.Shm.Library.{SharedLibrary}
use mid_napi.Shm.Answers.{TextLibrary}
use mid_napi.Shm.Router.{
  Handler, handle_node_post, handle_node_get, handle_node_delete, handle_pub_post, handle_sub_post,
  handle_topic_get, handle_topic_info, local_controller,
}

-- The field that the handler for a path and a verb reads as a number, if it reads one.
abbrev pub number_field : Bytes → Verb → Option Bytes
number_field path verb =
    if path ≟ codes "/node"
    then (elim verb [ post ↦ some (codes "pid") | _ ↦ none ])
    else if path ≟ codes "/node/pub"
    then (elim verb [ post ↦ some (codes "eventfd") | _ ↦ none ])
    else if path ≟ codes "/node/sub"
    then (elim verb [ post ↦ some (codes "eventfd") | _ ↦ none ])
    else none

-- Two conditionals on one test.
if_both :
    {A B : Type 0} (P : A → B → Type 0) (b : Bool) (x y : A) (u v : B)
    → P x u
    → P y v
    → P (if b then x else y) (if b then u else v)
if_both P true x y u v p q = p
if_both P false x y u v p q = q

module _ (http : HttpLibrary) (lib : SharedLibrary queue_size) (texts : TextLibrary)
    (P : Option Bytes → Option (Handler http lib texts) → Type 0) (nobody : P none none) where
  -- The paths in the order of their tests.
  by_path :
      (path : Bytes) (nn np ns : Option Bytes) (fn fp fs ft fi : Option (Handler http lib texts))
      → P nn fn
      → P np fp
      → P ns fs
      → P none ft
      → P none fi
      → P
          (if path ≟ codes "/node"
            then nn
            else if path ≟ codes "/node/pub"
            then np
            else if path ≟ codes "/node/sub"
            then ns
            else none)
          (if path ≟ codes "/node"
            then fn
            else if path ≟ codes "/node/pub"
            then fp
            else if path ≟ codes "/node/sub"
            then fs
            else if path ≟ codes "/topic"
            then ft
            else if path ≟ codes "/topic/info"
            then fi
            else none)
  by_path path nn np ns fn fp fs ft fi n p s t i = if_both P (path ≟ codes "/node") nn _ fn _ n (
      if_both P (path ≟ codes "/node/pub") np _ fp _ p (
        if_both P (path ≟ codes "/node/sub") ns none fs _ s (
          if_either (P none) (path ≟ codes "/topic") ft _ t
            (if_either (P none) (path ≟ codes "/topic/info") fi none i nobody))))

  pub controller_either :
      P (some (codes "pid")) (some (handle_node_post http lib texts))
      → P none (some (handle_node_get http lib texts))
      → P none (some (handle_node_delete http lib texts))
      → P (some (codes "eventfd")) (some (handle_pub_post http lib texts))
      → P (some (codes "eventfd")) (some (handle_sub_post http lib texts))
      → P none (some (handle_topic_get http lib texts))
      → P none (some (handle_topic_info http lib texts))
      → (path : Bytes) (verb : Verb)
      → P (number_field path verb) (local_controller http lib texts path verb)
  unfolding local_controller
  controller_either np ng nd pp sp tg ti path get =
      by_path path none none none (some (handle_node_get http lib texts)) none none
        (some (handle_topic_get http lib texts)) (some (handle_topic_info http lib texts)) ng nobody
        nobody tg ti
  controller_either np ng nd pp sp tg ti path post =
      by_path path (some (codes "pid")) (some (codes "eventfd")) (some (codes "eventfd"))
        (some (handle_node_post http lib texts)) (some (handle_pub_post http lib texts))
        (some (handle_sub_post http lib texts)) none none np pp sp nobody nobody
  controller_either np ng nd pp sp tg ti path put =
      by_path path none none none none none none none none nobody nobody nobody nobody nobody
  controller_either np ng nd pp sp tg ti path delete =
      by_path path none none none (some (handle_node_delete http lib texts)) none none none none nd
        nobody nobody nobody nobody
  controller_either np ng nd pp sp tg ti path unknown =
      by_path path none none none none none none none none nobody nobody nobody nobody nobody
