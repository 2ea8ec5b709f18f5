-- ===== src/Osmo.antt =====
-- What the program uses of libosmocore: message buffers, counted message queues and timers.
-- The library is not part of the repository, so its functions are the fields of a record, which
-- every definition that calls them takes as an instance; what its documentation says of them is
-- a second record, of equations, which the theorems take that rely on it.
pub mod Concrete
use ras.Base.{ℕ, ◌+◌, ◌-◌, ◌≡◌, Bool, true, false, Option, none, some}
use ras.Base.{List, [], ◌∷◌, ◌++◌, length, drop}

-- The octets between `msgb_data` and the tail of a buffer.
abbrev pub Msgb : Type 0
Msgb = List ℕ

-- A queue of buffers, the head first.
abbrev pub Queue : Type 0
Queue = List Msgb

-- The two functions of the X.75 code that it hands to `osmo_timer_setup`.
pub data Expiry : Type 0 where
  t1timer_expiry t2timer_expiry : Expiry

-- `struct osmo_timer_list`, less its place in the library's tree.
pub record Timer : Type 0 where
  pub cb : Option Expiry
  pub active : Bool
  pub tv_sec : ℕ

pub record Osmo : Type 0 where
  pub msgb_alloc : ℕ → Option Msgb
  pub msgb_copy : Msgb → Option Msgb
  pub msgb_headlen : Msgb → ℕ
  pub msgb_length : Msgb → ℕ
  pub msgb_reset : Msgb → Msgb
  pub msgb_pull : Msgb → ℕ → Msgb
  -- The octets that the caller writes into the space gained are the last argument.
  pub msgb_push : Msgb → List ℕ → Msgb
  pub msgb_put : Msgb → List ℕ → Msgb
  pub init_llist_head : Queue
  pub msgb_queue_free : Queue → Queue
  pub msgb_enqueue_count : Queue → Msgb → ℕ → Queue × ℕ
  pub msgb_dequeue_count : Queue → ℕ → Option Msgb × Queue × ℕ
  pub osmo_timer_setup : Timer → Option Expiry → Timer
  pub osmo_timer_schedule : Timer → ℕ → ℕ → Timer
  pub osmo_timer_del : Timer → Timer
  pub osmo_timer_pending : Timer → Bool
  -- OSMO_SUART_F_FRAMING_ERROR of the library's soft_uart.h.
  pub framing_error : ℕ

-- What the documentation says of buffers that have the head and tail room for what is written.
pub record Documented (o : Osmo) : Type 0 where
  pub headlen : (b : Msgb) → o.msgb_headlen b ≡ length b
  pub len : (b : Msgb) → o.msgb_length b ≡ length b
  pub reset : (b : Msgb) → o.msgb_reset b ≡ []
  pub pull : (b : Msgb) (n : ℕ) → o.msgb_pull b n ≡ drop n b
  pub push : (b h : Msgb) → o.msgb_push b h ≡ h ++ b
  pub put : (b t : Msgb) → o.msgb_put b t ≡ b ++ t
  pub init : o.init_llist_head ≡ []
  pub queue_free : (q : Queue) → o.msgb_queue_free q ≡ []
  pub enqueue : (q : Queue) (b : Msgb) (n : ℕ) → o.msgb_enqueue_count q b n ≡ (q ++ (b ∷ []), n + 1)
  pub dequeue : (b : Msgb) (q : Queue) (n : ℕ) → o.msgb_dequeue_count (b ∷ q) n ≡ (some b, q, n - 1)
  pub dequeue_empty : (n : ℕ) → o.msgb_dequeue_count [] n ≡ (none, [], n)
  pub setup : (t : Timer) (e : Option Expiry) → o.osmo_timer_setup t e ≡ record t { cb = e }
  pub schedule_cb : (t : Timer) (s us : ℕ) → (o.osmo_timer_schedule t s us).cb ≡ t.cb
  pub schedule_pending :
      (t : Timer) (s us : ℕ) → o.osmo_timer_pending (o.osmo_timer_schedule t s us) ≡ true
  pub del_cb : (t : Timer) → (o.osmo_timer_del t).cb ≡ t.cb
  pub del_pending : (t : Timer) → o.osmo_timer_pending (o.osmo_timer_del t) ≡ false
  pub setup_pending :
      (t : Timer) (e : Option Expiry)
      → o.osmo_timer_pending (o.osmo_timer_setup t e) ≡ o.osmo_timer_pending t

-- That there is memory left for the buffers asked for.
pub record HasMemory (o : Osmo) : Type 0 where
  pub alloc : (n : ℕ) → o.msgb_alloc n ≡ some []
  pub copy : (b : Msgb) → o.msgb_copy b ≡ some b
