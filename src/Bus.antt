-- ===== src/Bus.antt =====
-- The event bus, shared/src/event-bus/index.ts: how a consumer reads the entries of a Redis stream in its
-- group, hands them to a handler, and acknowledges them. Entries are known by their ids, and what
-- an entry holds never changes.
use tec_core_backend.Base.Lists.{take, drop}
use tec_core_backend.Base.{
  ℕ, zero, suc, ◌+◌, Bool, true, false, ◌&&◌, ◌||◌, Option, none, some, List, [], ◌∷◌, ◌++◌, ◌≡◌,
  if◌then◌else◌,
}
use tec_core_backend.Base.Ids.{is_in, remove}
pub mod Delivery
pub mod Drain
pub mod Credit
pub mod Paid
mod Examples

-- A consumer group with one consumer, as Redis has it: the entries that were not read yet, and those
-- that were read and not acknowledged.
pub record StreamGroup : Type 1 where
  pub Group : Type 0
  pub unread : Group → List ℕ
  pub pending : Group → List ℕ
  -- `XADD`, with the new id.
  pub add : ℕ → Group → Group
  -- `XREADGROUP ... COUNT n ... '>'`
  pub read_new : ℕ → Group → List ℕ × Group
  -- `XREADGROUP ... COUNT n ... '0'`
  pub read_pending : ℕ → Group → List ℕ
  -- `XACK`
  pub ack : ℕ → Group → Group
  pub unread-add : (i : ℕ) (g : Group) → unread (add i g) ≡ unread g ++ i ∷ []
  pub pending-add : (i : ℕ) (g : Group) → pending (add i g) ≡ pending g
  pub read_new_result : (n : ℕ) (g : Group) → (read_new n g).0 ≡ take n (unread g)
  pub unread-read_new : (n : ℕ) (g : Group) → unread (read_new n g).1 ≡ drop n (unread g)
  pub pending-read_new :
      (n : ℕ) (g : Group) → pending (read_new n g).1 ≡ pending g ++ take n (unread g)
  pub read_pending_result : (n : ℕ) (g : Group) → read_pending n g ≡ take n (pending g)
  pub unread-ack : (i : ℕ) (g : Group) → unread (ack i g) ≡ unread g
  pub pending-ack : (i : ℕ) (g : Group) → pending (ack i g) ≡ remove i (pending g)

-- `batchSize`, and the `COUNT` of `processPendingMessages`.
abbrev pub batch_size : ℕ
batch_size = 10

abbrev pub pending_count : ℕ
pending_count = 100

-- What the consumer meets while it handles an entry: what the handler meets, and whether `xack` works.
pub record Attempt (E : Type 0) : Type 0 where
  pub env : E
  pub has_ack : Bool

-- What happens to a stream and its consumer: an entry is added; a turn of the loop; a start, which
-- handles what is pending first. In the last two the consumer stops after `most` entries, if there
-- are as many. `met` says what it meets at each entry. A read that fails does nothing.
pub data Event (E : Type 0) : Type 0 where
  added : ℕ → Event E
  turn : (ℕ → Attempt E) → ℕ → Event E
  started : (ℕ → Attempt E) → ℕ → Event E

-- The payload `data` of an entry is none if it has no such field or is no JSON. A handler returns or
-- throws, and changes the state of the service.
module _ {E P S : Type 0} (R : StreamGroup) (data_of : ℕ → Option P)
    (handler : E → P → S → Bool × S) where
  open R use {Group, add, read_new, read_pending, ack}

  -- The `try` of the loops.
  unfoldable pub process_message : Attempt E → ℕ → Group × S → Group × S
  process_message a i (g, s) = elim (data_of i) [
    | none ↦ (g, s)
    | some p ↦
        let (returned, s') = handler a.env p s in (if returned && a.has_ack then ack i g else g, s')
  ]

  -- `for (const [messageId, fields] of messages)`
  unfoldable pub process_messages : (ℕ → Attempt E) → List ℕ → Group × S → Group × S
  process_messages met [] w = w
  process_messages met (i ∷ is) w = process_messages met is (process_message (met i) i w)

  -- `processPendingMessages`
  unfoldable pub process_pending_messages : (ℕ → Attempt E) → ℕ → Group × S → Group × S
  process_pending_messages met most (g, s) =
      process_messages met (take most (read_pending pending_count g)) (g, s)

  -- A turn of the loop of `subscribeStream`.
  unfoldable pub read_turn : (ℕ → Attempt E) → ℕ → Group × S → Group × S
  read_turn met most (g, s) =
      let (is, g') = read_new batch_size g in process_messages met (take most is) (g', s)

  unfoldable pub step : Event E → Group × S → Group × S
  step (added i) (g, s) = (add i g, s)
  step (turn met most) w = read_turn met most w
  step (started met most) w = process_pending_messages met most w

  unfoldable pub run : List (Event E) → Group × S → Group × S
  run [] w = w
  run (e ∷ es) w = run es (step e w)
