-- ===== src/Nodes/Status.antt =====
-- `NodeStatus` of src/state.rs.
use nox_indexer.Prelude.{Bool, true, false, if◌then◌else◌}
use nox_indexer.Prelude.Text.{Text, text, text_eq}

pub data NodeStatus : Type 0 where
  online : NodeStatus
  offline : NodeStatus
  deregistered : NodeStatus

-- `NodeStatus::as_str`
unfoldable pub as_str : NodeStatus → Text
as_str online = text "online"
as_str offline = text "offline"
as_str deregistered = text "deregistered"

-- `NodeStatus::from_str`: an unknown status is offline.
unfoldable pub from_str : Text → NodeStatus
from_str s =
    if text_eq s (text "online")
    then online
    else if text_eq s (text "offline")
    then offline
    else if text_eq s (text "deregistered")
    then deregistered
    else offline

abbrev pub is_deregistered : NodeStatus → Bool
is_deregistered online = false
is_deregistered offline = false
is_deregistered deregistered = true

-- `!=` of the derived `PartialEq`.
abbrev pub is_same : NodeStatus → NodeStatus → Bool
is_same online s = elim s [ online ↦ true | _ ↦ false ]
is_same offline s = elim s [ offline ↦ true | _ ↦ false ]
is_same deregistered s = elim s [ deregistered ↦ true | _ ↦ false ]
