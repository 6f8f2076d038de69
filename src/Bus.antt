-- ===== src/Bus.antt =====
-- The event bus on Redis streams: shared/utils/streamBus.js, with shared/constants/streams.js. Texts are
-- numbers that are only compared, JSON.parse and the handler are arguments, and the Redis commands
-- answer. A stream of one consumer group is modelled; a consumer's streams share its handlers' state only.
pub mod Delivery
pub mod Poison
mod Examples
use railway_booking_system.Base.{
  ℕ, ◌+◌, Bool, true, false, Option, none, some, List, [], ◌∷◌, ◌++◌, find_first, any, update_where,
  delete_where, leb, ◌==◌, if◌then◌else◌,
}
use railway_booking_system.Errors.{Result, ok, err, Failure}
use railway_booking_system.Effects.{Act}

abbrev pub stream_max_retries : ℕ
stream_max_retries = 3

-- The field name 'data'.
abbrev pub data_name : ℕ
data_name = 0

-- The object that the flat array of names and values stands for: of two values with one name the later
-- counts, and a name at the end has none.
unfoldable pub fields_to_object : List ℕ → ℕ → Option ℕ
fields_to_object [] name = none
fields_to_object (k ∷ []) name = none
fields_to_object (k ∷ v ∷ rest) name = elim (fields_to_object rest name) [
  | some u ↦ some u
  | none ↦ if k == name then some v else none
]

-- An entry of the stream; the fields of one that was trimmed away are null.
pub record Entry : Type 0 where
  pub id : ℕ
  pub fields : Option (List ℕ)

-- A row of the group's list of pending entries, with how often the entry was delivered.
pub record Pending : Type 0 where
  pub id : ℕ
  pub deliveries : ℕ

pub data Cause : Type 0 where
  parse_error : Cause
  handler_failed : Failure → Cause

pub record DeadLetter : Type 0 where
  pub content : Option ℕ
  pub cause : Cause
  pub source : ℕ

-- The group's pending entries, the dead-letter stream, and the state that the handler works on.
pub record Group (S : Type 0) : Type 0 where
  pub pending : List Pending
  pub dead_letters : List DeadLetter
  pub state : S

unfoldable pub is_pending : ℕ → Pending → Bool
is_pending id p = p.id == id

module _ {S : Type 0} where
  unfoldable pub acknowledge : ℕ → Group S → Group S
  unfolding is_pending
  acknowledge id g = record g { pending = delete_where (is_pending id) g.pending }

  -- XPENDING, which counts 1 where it shows nothing.
  unfoldable pub deliveries_of : ℕ → Group S → ℕ
  unfolding is_pending
  deliveries_of id g = elim (find_first (is_pending id) g.pending) [
    | none ↦ 1
    | some p ↦ p.deliveries
  ]

  -- What Redis does where it hands an entry out: XREADGROUP a new one, XAUTOCLAIM one that is pending.
  unfoldable pub deliver : ℕ → Group S → Group S
  unfolding is_pending
  deliver id g =
      if any (is_pending id) g.pending
      then record g {
        pending =
            update_where (is_pending id) (λ p. record p { deliveries = p.deliveries + 1 })
              g.pending;
      }
      else record g { pending = g.pending ++ record { id = id; deliveries = 1 } ∷ [] }

  unfoldable pub deliver_all : List Entry → Group S → Group S
  unfolding deliver
  deliver_all [] g = g
  deliver_all (e ∷ es) g = deliver_all es (deliver e.id g)

module _ {S Message : Type 0} (parse : ℕ → Option Message) (handler : Message → Act S (Unit {0}))
    (source : ℕ) where
  unfoldable pub letter : Option ℕ → Cause → DeadLetter
  letter content cause = record { content = content; cause = cause; source = source }

  unfoldable pub bury : Option ℕ → Cause → Group S → Group S
  unfolding letter
  bury content cause g = record g { dead_letters = g.dead_letters ++ letter content cause ∷ [] }

  unfoldable pub handle_failure : ℕ → Option ℕ → Failure → Group S → Group S
  unfolding acknowledge bury deliveries_of
  handle_failure id content e g =
      if leb stream_max_retries (deliveries_of id g)
      then acknowledge id (bury content (handler_failed e) g)
      else g

  unfoldable pub after_handler : ℕ → Option ℕ → Result (Unit {0}) × S → Group S → Group S
  unfolding acknowledge handle_failure
  after_handler id content (ok _, s) g = acknowledge id (record g { state = s })
  after_handler id content (err e, s) g = handle_failure id content e (record g { state = s })

  unfoldable pub handle_message : ℕ → Option ℕ → Option Message → Group S → Group S
  unfolding acknowledge bury after_handler
  handle_message id content none g = acknowledge id (bury content parse_error g)
  handle_message id content (some message) g = after_handler id content (handler message g.state) g

  -- JSON.parse throws on undefined.
  abbrev pub parsed : Option ℕ → Option Message
  parsed none = none
  parsed (some text) = parse text

  unfoldable pub handle_fields : ℕ → Option (List ℕ) → Group S → Group S
  unfolding acknowledge handle_message fields_to_object
  handle_fields id none g = acknowledge id g
  handle_fields id (some fields) g =
      let content = fields_to_object fields data_name in
      handle_message id content (parsed content) g

  unfoldable pub handle_entry : Entry → Group S → Group S
  unfolding handle_fields
  handle_entry e g = handle_fields e.id e.fields g

  unfoldable pub handle_all : List Entry → Group S → Group S
  unfolding handle_entry
  handle_all [] g = g
  handle_all (e ∷ es) g = handle_all es (handle_entry e g)

  -- A turn of the loop: the entries that are reclaimed, then the ones that are new.
  unfoldable pub turn : (reclaimed fresh : List Entry) → Group S → Group S
  unfolding deliver_all handle_all
  turn reclaimed fresh g =
      let g' = handle_all reclaimed (deliver_all reclaimed g) in
      handle_all fresh (deliver_all fresh g')
