-- ===== src/Controller/Calls.antt =====
-- What the parts of a handler in pkg/csi/driver/controllerserver.go leave alone: a part that makes none
-- of the calls below and keeps the grace periods has the same view after it.
pub mod Nodes
pub mod Volumes
use storage_provider_openneb.Prelude.{
  ◌≡◌, refl, String, Bool, true, false, List, [], ◌∷◌, Option, none, some, if◌then◌else◌,
}
use storage_provider_openneb.StickyAttachment
use storage_provider_openneb.Controller.{
  Server, History, Event, attach_called, detach_called, located, node_looked_up, volume_looked_up,
  desire_checked, queued,
}

-- The calls that look for a volume or a node, that move a volume, or that queue for it.
abbrev pub is_notable : Event → Bool
is_notable (attach_called v n i r) = true
is_notable (detach_called v n r) = true
is_notable (located v n r) = true
is_notable (node_looked_up n r) = true
is_notable (volume_looked_up v r) = true
is_notable (desire_checked v n r) = true
is_notable (queued n o v r) = true
is_notable _ = false

abbrev pub notable : History → History
notable [] = []
notable (e ∷ h) = if is_notable e then e ∷ notable h else notable h

abbrev pub View : Type 0
View = History × StickyAttachment.Entries

abbrev pub view : Server → View
view s = (notable s.history, s.sticky)
