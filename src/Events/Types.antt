-- ===== src/Events/Types.antt =====
-- internal/events/events.go: the names of the events and their payloads.
use skybeam_mail.Prelude.{ℕ, Bool, Text, codes}

-- The constants of type EventType.
pub data EventType : Type 0 where
  message_delivered message_read message_unread message_moved message_deleted : EventType
  message_archived message_starred message_unstarred message_sent : EventType
  label_added label_removed folder_created folder_deleted reconcile_complete : EventType

-- The string that is stored.
unfoldable pub event_name : EventType → Text
event_name EventType.message_delivered = codes "MessageDelivered"
event_name EventType.message_read = codes "MessageRead"
event_name EventType.message_unread = codes "MessageUnread"
event_name EventType.message_moved = codes "MessageMoved"
event_name EventType.message_deleted = codes "MessageDeleted"
event_name EventType.message_archived = codes "MessageArchived"
event_name EventType.message_starred = codes "MessageStarred"
event_name EventType.message_unstarred = codes "MessageUnstarred"
event_name EventType.message_sent = codes "MessageSent"
event_name EventType.label_added = codes "LabelAdded"
event_name EventType.label_removed = codes "LabelRemoved"
event_name EventType.folder_created = codes "FolderCreated"
event_name EventType.folder_deleted = codes "FolderDeleted"
event_name EventType.reconcile_complete = codes "ReconcileCompleted"

-- The values that the callers of EmitWith marshal, before the marshalling.
pub data Payload : Type 0 where
  -- an empty map, `{}`
  nothing : Payload
  -- subject, from and snippet of a delivered message
  delivered : Text → Text → Text → Payload
  -- folder_name
  folder_named : Text → Payload
  -- DeletedPayload: from_folder, permanent
  deleted : Text → Bool → Payload
  -- ReconcilePayload: inserted, updated, deleted
  reconciled : ℕ → ℕ → ℕ → Payload
