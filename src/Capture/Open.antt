-- ===== src/Capture/Open.antt =====
-- capture.rs: `find` and `open`. The interfaces of the host, and what opening a channel answers,
-- are parameters.
use docsis_monitor.Result.{Result, ok, bail, with_context}
use docsis_monitor.Base.{Text, codes, join, concat, text_eq, none, some, List, [], ◌∷◌, ◌++◌, map}
use docsis_monitor.Config.Load.{find_first}

-- `NetworkInterface`, as far as the program reads it: the name, and the addresses as text.
pub record Interface : Type 0 where
  pub name : Text
  pub ips : List Text

-- `find`.
unfoldable pub find : Text → List Interface → Result Interface
unfolding find_first text_eq join
find want all = elim (find_first (λ (i : Interface). text_eq i.name want) all) [
  | some found ↦ ok found
  | none ↦ bail (
      concat (
        codes "this host has no interface called "
        ∷ want
        ∷ codes ". It has: "
        ∷ join (codes ", ") (map (λ (i : Interface). i.name) all)
        ∷ []))
]

-- What `pnet_datalink::channel` answers: a receiver, a channel of another kind, or an error, which
-- may be that of a missing permission.
pub data Opened (Receiver : Type 0) : Type 0 where
  ethernet : Receiver → Opened Receiver
  other : Opened Receiver
  denied : Opened Receiver
  failed : Text → Opened Receiver

module _ {Receiver : Type 0} where
  -- `open`.
  unfoldable pub open_capture : Interface → Opened Receiver → Result Receiver
  unfolding concat
  open_capture iface (ethernet rx) = ok rx
  open_capture iface other =
      bail (iface.name ++ codes " is not an Ethernet interface, and this reads Ethernet frames")
  open_capture iface denied = bail (
      concat (
        codes "not allowed to capture on "
        ∷ iface.name
        ∷ codes
            ". A capture socket belongs to root or to a binary with CAP_NET_RAW: either run this as root, or grant it once with `setcap cap_net_raw,cap_net_admin=eip <path to docsis_monitor>`."
        ∷ []))
  open_capture iface (failed why) =
      with_context (codes "opening a capture on " ++ iface.name) (bail why)
