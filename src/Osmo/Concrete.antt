-- ===== src/Osmo/Concrete.antt =====
-- The library's functions on lists, for the examples.
use ras.Base.{ℕ, ◌+◌, ◌-◌, refl, true, false, none, some, Option, [], ◌∷◌, ◌++◌, length, drop}
use ras.Osmo.{Osmo, Documented, HasMemory, Msgb, Queue}

abbrev dequeue_list : Queue → ℕ → Option Msgb × Queue × ℕ
dequeue_list [] n = (none, [], n)
dequeue_list (b ∷ q) n = (some b, q, n - 1)

instance abbrev pub lists : Osmo
lists = record {
  msgb_alloc = λ n. some [];
  msgb_copy = λ b. some b;
  msgb_headlen = λ b. length b;
  msgb_length = λ b. length b;
  msgb_reset = λ b. [];
  msgb_pull = λ b n. drop n b;
  msgb_push = λ b h. h ++ b;
  msgb_put = λ b t. b ++ t;
  init_llist_head = [];
  msgb_queue_free = λ q. [];
  msgb_enqueue_count = λ q b n. (q ++ (b ∷ []), n + 1);
  msgb_dequeue_count = dequeue_list;
  osmo_timer_setup = λ t e. record t { cb = e };
  osmo_timer_schedule = λ t s us. record t { active = true; tv_sec = s };
  osmo_timer_del = λ t. record t { active = false };
  osmo_timer_pending = λ t. t.active;
  framing_error = 1;
}

pub lists-Documented : Documented lists
lists-Documented = record {
  headlen = λ b. refl;
  len = λ b. refl;
  reset = λ b. refl;
  pull = λ b n. refl;
  push = λ b h. refl;
  put = λ b t. refl;
  init = refl;
  queue_free = λ q. refl;
  enqueue = λ q b n. refl;
  dequeue = λ b q n. refl;
  dequeue_empty = λ n. refl;
  setup = λ t e. refl;
  schedule_cb = λ t s us. refl;
  schedule_pending = λ t s us. refl;
  del_cb = λ t. refl;
  del_pending = λ t. refl;
  setup_pending = λ t e. refl;
}

pub lists-HasMemory : HasMemory lists
lists-HasMemory = record { alloc = λ n. refl; copy = λ b. refl }
