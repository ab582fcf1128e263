-- ===== src/Registry/Setup.antt =====
-- Setting up the interface manager: InterfaceManager::init of src/Master/src/InterfaceManager.cpp,
-- from the configuration that the JSON reader yields. An interface of a type that is neither "tcp"
-- nor "uwb" is a null pointer, `none`; asking it for its segment is undefined behaviour, as is an
-- overflow in the search for routes, and the result is `none` then. The interface objects'
-- addresses and devices, and "launch", are not modelled.
use mid_napi.Prelude.{
  ◌||◌, Bool, Option, none, some, ◌>>=◌, List, [], ◌∷◌, Bytes, codes, insert, ◌≟◌, ◌==◌, bytes_eq,
  if◌then◌else◌, ℕ,
}
use mid_napi.Routing.{Config, HostEntry, InterfaceEntry, init}
use mid_napi.Registry.{Host, new_host, add_member, drop_member}
use mid_napi.Registry.Manager.{InterfaceManager, reroute}

-- The segment of a local interface, and the names in its `name2hostInterface`.
pub record Interface : Type 0 where
  pub segment : ℕ
  pub attached : List Bytes

abbrev pub is_known : Bytes → Bool
is_known kind = (kind ≟ codes "tcp") || (kind ≟ codes "uwb")

unfoldable pub make_interface : InterfaceEntry → Option Interface
make_interface i =
    if is_known i.kind then some (record { segment = i.segment; attached = [] }) else none

unfoldable pub make_interfaces :
    List InterfaceEntry → List (Bytes × Option Interface) → List (Bytes × Option Interface)
unfolding make_interface
make_interfaces [] m = m
make_interfaces (i ∷ more) m = make_interfaces more (insert i.name (make_interface i) m)

-- The first loop: the interfaces of the first host with the local name.
unfoldable pub local_interfaces : Bytes → List HostEntry → List (Bytes × Option Interface)
unfolding make_interfaces
local_interfaces host_name [] = []
local_interfaces host_name (h ∷ hs) =
    let later = local_interfaces host_name hs in
    if h.name ≟ host_name then make_interfaces h.interfaces [] else later

-- `setHostInterface` on an interface of the same segment.
abbrev pub attach_to : InterfaceEntry → Interface → Interface
attach_to i it =
    if it.segment == i.segment
    then record it {
      attached =
          if is_known i.kind then add_member i.name it.attached else drop_member i.name it.attached;
    }
    else it

unfoldable pub attach :
    InterfaceEntry → List (Bytes × Option Interface) → Option (List (Bytes × Option Interface))
attach i [] = some []
attach i ((name, none) ∷ m) = none
attach i ((name, some it) ∷ m) = do rest ← attach i m; some ((name, some (attach_to i it)) ∷ rest)

unfoldable pub attach_all :
    List InterfaceEntry → List (Bytes × Option Interface) → Option (List (Bytes × Option Interface))
unfolding attach
attach_all [] m = some m
attach_all (i ∷ more) m = attach i m >>= attach_all more

-- The second loop: the other hosts.
unfoldable pub attach_hosts :
    Bytes
    → List HostEntry
    → List (Bytes × Option Interface)
    → Option (List (Bytes × Option Interface))
unfolding attach_all
attach_hosts host_name [] m = some m
attach_hosts host_name (h ∷ hs) m =
    let skipped = attach_hosts host_name hs m in
    if h.name ≟ host_name then skipped else attach_all h.interfaces m >>= attach_hosts host_name hs

unfoldable pub other_hosts : Bytes → List HostEntry → List (Bytes × Host) → List (Bytes × Host)
other_hosts host_name [] m = m
other_hosts host_name (h ∷ hs) m =
    if h.name ≟ host_name
    then other_hosts host_name hs m
    else other_hosts host_name hs (insert h.name new_host m)

-- A null interface is like none: a send through it dereferences it.
abbrev pub tables : List (Bytes × Option Interface) → List (Bytes × List Bytes)
tables [] = []
tables ((name, none) ∷ m) = tables m
tables ((name, some it) ∷ m) = (name, it.attached) ∷ tables m

-- On the manager as it is constructed.
unfoldable pub init_manager :
    {Request : Type 0}
    → Config
    → Bytes
    → InterfaceManager Request
    → Option (InterfaceManager Request)
unfolding local_interfaces attach_hosts other_hosts init reroute
init_manager config host_name m = do
  interfaces ← attach_hosts host_name config.hosts (local_interfaces host_name config.hosts)
  reroute (init config host_name m.map) (record m {
    host_name = host_name;
    hostlist = other_hosts host_name config.hosts m.hostlist;
    interface_list = tables interfaces;
  })
