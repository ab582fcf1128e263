-- ===== src/Shm/Answers.antt =====
-- What a master tells about nodes and topics: MiddlewareManager::getAllNodeInfo of
-- src/Master/src/MiddlewareManager.cpp and the GET handlers of NodeController.cpp,
-- TopicController.cpp and TopicInfoController.cpp in src/Master/src/shm/controller. The JSON writer
-- is a library, so a text is a parameter applied to the value that is written.
use mid_napi.Prelude.{
  ℕ, ◌+◌, ◌&&◌, Option, none, some, ◌>>=◌, List, [], ◌∷◌, ◌++◌, Bytes, insert, ◌==◌, ◌≟◌, bytes_eq,
  if◌then◌else◌,
}
use mid_napi.Registry.{Host, Topic2Type, add_member}
use mid_napi.Registry.Controllers.{NodeInfo}
use mid_napi.Shm.{
  ℤ, Endpoint, Node, queue_size, endpoints_of, get_all_publish_topics, get_all_subscribe_topics,
  Master,
}
use mid_napi.Shm.Library.{SharedLibrary}

pub record TopicInfo : Type 0 where
  pub type : Bytes
  pub pubcount : ℕ
  pub subcount : ℕ
  pub pubnodes : List Bytes
  pub subnodes : List Bytes

pub record TextLibrary : Type 0 where
  -- std::stoi; it throws where it has no result.
  pub stoi : Bytes → Option ℤ
  -- Json::writeString of an object of arrays of names, of the answer at "/topic/info", whose first
  -- argument is the topic, and of an array of nodes under "nodes".
  pub write_lists : List (Bytes × List Bytes) → Bytes
  pub write_topic : Bytes → TopicInfo → Bytes
  pub write_nodes : List NodeInfo → Bytes

-- The loop of `getAllNodeInfo`. A null node is dereferenced.
unfoldable pub node_infos : List (Bytes × Option Node) → Option (List NodeInfo)
node_infos [] = some []
node_infos ((name, none) ∷ nodes) = none
node_infos ((name, some n) ∷ nodes) = do
  rest ← node_infos nodes
  some (
      record {
        name = name;
        subtopics = get_all_subscribe_topics n;
        pubtopics = get_all_publish_topics n;
      }
      ∷ rest)

abbrev pub names : {A : Type 0} → List (Bytes × A) → List Bytes
names [] = []
names ((name, a) ∷ entries) = name ∷ names entries

-- NodeController::handleGet: the nodes of every host.
unfoldable pub host_nodes :
    List (Bytes × Host) → List (Bytes × List Bytes) → List (Bytes × List Bytes)
host_nodes [] root = root
host_nodes ((name, h) ∷ hosts) root = host_nodes hosts (insert name h.node_list root)

abbrev pub add_members : List Bytes → List Bytes → List Bytes
add_members [] topics = topics
add_members (x ∷ xs) topics = add_members xs (add_member x topics)

-- The topics of every node of a host.
unfoldable pub add_topics : List (Bytes × Topic2Type) → List Bytes → List Bytes
add_topics [] topics = topics
add_topics ((node, topic2type) ∷ m) topics = add_topics m (add_members (names topic2type) topics)

-- TopicController::handleGet
unfoldable pub host_topics :
    List (Bytes × Host) → List (Bytes × List Bytes) → List (Bytes × List Bytes)
unfolding add_topics
host_topics [] root = root
host_topics ((name, h) ∷ hosts) root =
    host_topics hosts
      (insert name (add_topics h.node2pubtopic2type (add_topics h.node2subtopic2type [])) root)

-- `if(topic_type.empty()) topic_type = type;`
abbrev pub type_or : Bytes → Bytes → Bytes
type_or [] type = type
type_or (c ∷ s) type = c ∷ s

abbrev pub count_pub : Bytes → Bytes → TopicInfo → TopicInfo
count_pub node type info = record info {
  pubcount = info.pubcount + 1;
  pubnodes = info.pubnodes ++ node ∷ [];
  type = type_or info.type type;
}

abbrev pub count_sub : Bytes → Bytes → TopicInfo → TopicInfo
count_sub node type info = record info {
  subcount = info.subcount + 1;
  subnodes = info.subnodes ++ node ∷ [];
  type = type_or info.type type;
}

-- The objects of this host.
unfoldable pub count_each :
    (Bytes → Bytes → TopicInfo → TopicInfo) → List Endpoint → TopicInfo → TopicInfo
count_each count [] info = info
count_each count (e ∷ es) info = count_each count es (count e.node_name e.type info)

abbrev pub count_topics :
    (Bytes → Bytes → TopicInfo → TopicInfo) → Bytes → Bytes → Topic2Type → TopicInfo → TopicInfo
count_topics count topic node [] info = info
count_topics count topic node ((t, type) ∷ topic2type) info =
    count_topics count topic node topic2type (if t ≟ topic then count node type info else info)

-- The nodes of another host.
unfoldable pub count_nodes :
    (Bytes → Bytes → TopicInfo → TopicInfo)
    → Bytes
    → List (Bytes × Topic2Type)
    → TopicInfo
    → TopicInfo
count_nodes count topic [] info = info
count_nodes count topic ((node, topic2type) ∷ m) info =
    count_nodes count topic m (count_topics count topic node topic2type info)

unfoldable pub count_hosts : Bytes → List (Bytes × Host) → TopicInfo → TopicInfo
unfolding count_nodes
count_hosts topic [] info = info
count_hosts topic ((name, h) ∷ hosts) info = count_hosts topic hosts (
    count_nodes count_pub topic h.node2pubtopic2type
      (count_nodes count_sub topic h.node2subtopic2type info))

abbrev pub no_topic : TopicInfo
no_topic = record { type = []; pubcount = 0; subcount = 0; pubnodes = []; subnodes = [] }

module _ (lib : SharedLibrary queue_size) {Request : Type 0} where
  unfoldable pub node_lists : Master lib Request → List (Bytes × List Bytes)
  unfolding host_nodes
  node_lists m = host_nodes m.interface.hostlist (insert m.interface.host_name (names m.nodes) [])

  unfoldable pub topic_lists : Master lib Request → List (Bytes × List Bytes)
  unfolding host_topics
  topic_lists m = host_topics m.interface.hostlist (
      insert m.interface.host_name
        (add_members (names m.subscribes) (add_members (names m.publishes) [])) [])

  unfoldable pub topic_info : Bytes → Master lib Request → TopicInfo
  unfolding count_each count_hosts
  topic_info topic m = count_hosts topic m.interface.hostlist (
      count_each count_sub (endpoints_of topic m.subscribes)
        (count_each count_pub (endpoints_of topic m.publishes) no_topic))

  -- The answer at "/topic/info", none for a topic that nobody has.
  unfoldable pub topic_answer : Bytes → Master lib Request → Option TopicInfo
  unfolding topic_info
  topic_answer topic m =
      let info = topic_info topic m in
      if info.pubcount == 0 && info.subcount == 0 then none else some info

  unfoldable pub get_all_node_info : TextLibrary → Master lib Request → Option Bytes
  unfolding node_infos
  get_all_node_info texts m = do infos ← node_infos m.nodes; some (texts.write_nodes infos)
