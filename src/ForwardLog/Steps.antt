-- ===== src/ForwardLog/Steps.antt =====
-- What holds of the forward log manager (internal/pkg/forwardlog/manager.go), and that each event keeps it.
use app_modbus_go.Prelude.{
  ℕ, zero, suc, ◌+◌, ◌≡◌, ◌≤◌, ◌<◌, ◌⊎◌, inl, inr, refl, sym, ap, ◌∙◌, Bool, true, false, Option,
  none, some, List, [], ◌∷◌, ◌++◌, arith, length, length-append, le→leb, Bool-cases,
}
use mathlib.Core.Option.{some-injective, none-ne-some}
use mathlib.Core.Path.{subst}
use mathlib.Core.List.{append_assoc, append-nil}
use app_modbus_go.Value.{Floats}
use app_modbus_go.ForwardLog.{
  LogEntry, Attempt, Worker, waiting, sending, closing, finished, Manager, send_log_entry, Event,
  add, signal, stop_call, stop_wake, tick, flush_wake, send, add_entry, take_queue, step,
}

module _ {fl : Floats} where
  -- the entries that the goroutine has taken and not sent yet
  abbrev pub in_hand : Worker fl → List (LogEntry fl)
  in_hand waiting = []
  in_hand (sending es) = es
  in_hand (closing es) = es
  in_hand finished = []

  -- The entries that some events add.
  abbrev pub one_added : Event fl → List (LogEntry fl)
  one_added (add e) = e ∷ []
  one_added _ = []

  abbrev pub added : List (Event fl) → List (LogEntry fl)
  added [] = []
  added (e ∷ es) = one_added e ++ added es

module _ {fl : Floats} (publish : ℕ → Bool) (has_client : Bool) where
  -- The calls of Publish for entries that are sent one after the other.
  abbrev pub deliver : ℕ → List (LogEntry fl) → List (Attempt fl)
  deliver call [] = []
  deliver call (e ∷ es) =
      let attempts = send_log_entry publish has_client 3 call e in
      attempts ++ deliver (call + length attempts) es

  deliver-append :
      (call : ℕ) (es : List (LogEntry fl)) (e : LogEntry fl)
      → deliver call (es ++ (e ∷ []))
        ≡ deliver call es ++ send_log_entry publish has_client 3 (call + length (deliver call es)) e
  deliver-append call [] e =
      let same : call ≡ call + 0 = omega arith in
      append-nil (send_log_entry publish has_client 3 call e)
      ∙ ap (λ c. send_log_entry publish has_client 3 c e) same
  deliver-append call (x ∷ es) e =
      let first = send_log_entry publish has_client 3 call x in
      let others = deliver (call + length first) es in
      let same : call + length first + length others ≡ call + length (first ++ others) =
        omega (arith, length-append first others) in
      ap (λ xs. first ++ xs) (deliver-append (call + length first) es e)
      ∙ sym (
          append_assoc first others
            (send_log_entry publish has_client 3 (call + length first + length others) e))
      ∙ ap (λ c. (first ++ others) ++ send_log_entry publish has_client 3 c e) same

  -- What holds of the manager when the entries `all` have been added to it.
  pub record Keeps (all : List (LogEntry fl)) (m : Manager fl) : Type 0 where
    pub handled : List (LogEntry fl)
    pub order : handled ++ (in_hand m.worker ++ m.queue) ≡ all
    pub log : m.attempts ≡ deliver 0 handled
    pub woken : 10 ≤ length m.queue → (m.flush_pending ≡ true) ⊎ (0 < m.signalling)
    pub client : m.has_client ≡ has_client
    pub retries : m.max_retries ≡ 3
    pub batch : m.batch_size ≡ 10

  module _ {all : List (LogEntry fl)} {m' : Manager fl} {o : Option (Manager fl)}
      (h : o ≡ some m') where
    pub reaches : {m₁ : Manager fl} → o ≡ some m₁ → Keeps all m₁ → Keeps all m'
    reaches {m₁ = m₁} e k = subst (Keeps all) (some-injective m₁ m' (sym e ∙ h)) k

    stuck : o ≡ none → Keeps all m'
    stuck e = absurd (none-ne-some m' (sym e ∙ h))

  add-Keeps :
      (all : List (LogEntry fl)) (e : LogEntry fl) (m : Manager fl)
      → Keeps all m
      → Keeps (all ++ (e ∷ [])) (add_entry e m)
  unfolding add_entry
  add-Keeps all e m k = record {
    handled = k.handled;
    order =
        sym (
          append_assoc k.handled (in_hand m.worker ++ m.queue) (e ∷ [])
          ∙ ap (λ xs. k.handled ++ xs) (append_assoc (in_hand m.worker) m.queue (e ∷ [])))
        ∙ ap (λ xs. xs ++ (e ∷ [])) k.order;
    log = k.log;
    woken = λ big. inr (rw (k.batch, le→leb 10 (length (m.queue ++ (e ∷ []))) big) (omega arith));
    client = k.client;
    retries = k.retries;
    batch = k.batch;
  }

  take-Keeps :
      (all : List (LogEntry fl)) (m : Manager fl) (to : List (LogEntry fl) → Worker fl)
      (pending : Bool)
      → ((es : List (LogEntry fl)) → in_hand (to es) ≡ es)
      → m.worker ≡ waiting
      → Keeps all m
      → Keeps all (take_queue to (record m { flush_pending = pending }))
  unfolding take_queue
  take-Keeps all m to pending holds w k = record {
    handled = k.handled;
    order =
        ap (λ xs. k.handled ++ xs)
          (append-nil (in_hand (to m.queue))
            ∙ holds m.queue
            ∙ ap (λ w. in_hand w ++ m.queue) (sym w))
        ∙ k.order;
    log = k.log;
    woken = λ big. absurd (omega arith);
    client = k.client;
    retries = k.retries;
    batch = k.batch;
  }

  send-Keeps :
      (all : List (LogEntry fl)) (m : Manager fl) (e : LogEntry fl) (rest : List (LogEntry fl))
      (next : Worker fl)
      → in_hand m.worker ≡ e ∷ rest
      → in_hand next ≡ rest
      → Keeps all m
      → Keeps all (record m {
        worker = next;
        attempts =
            m.attempts ++ send_log_entry publish m.has_client m.max_retries (length m.attempts) e;
      })
  send-Keeps all m e rest next now later k =
      let count : length (deliver 0 k.handled) ≡ 0 + length (deliver 0 k.handled) = omega arith in
      record {
        handled = k.handled ++ (e ∷ []);
        order =
            append_assoc k.handled (e ∷ []) (in_hand next ++ m.queue)
            ∙ ap (λ xs. k.handled ++ (e ∷ (xs ++ m.queue))) later
            ∙ ap (λ xs. k.handled ++ (xs ++ m.queue)) (sym now)
            ∙ k.order;
        log =
            rw (k.client, k.retries, k.log)
              (ap (λ c. deliver 0 k.handled ++ send_log_entry publish has_client 3 c e) count
                ∙ sym (deliver-append 0 k.handled e));
        woken = k.woken;
        client = k.client;
        retries = k.retries;
        batch = k.batch;
      }

  end-Keeps :
      (all : List (LogEntry fl)) (m : Manager fl) (next : Worker fl)
      → in_hand m.worker ≡ []
      → in_hand next ≡ []
      → Keeps all m
      → Keeps all (record m { worker = next })
  end-Keeps all m next now later k = record {
    handled = k.handled;
    order = ap (λ xs. k.handled ++ (xs ++ m.queue)) (later ∙ sym now) ∙ k.order;
    log = k.log;
    woken = k.woken;
    client = k.client;
    retries = k.retries;
    batch = k.batch;
  }

  module _ (all : List (LogEntry fl)) (m m' : Manager fl) (k : Keeps all m) where
    tick-Keeps : (w : Worker fl) → m.worker ≡ w → step publish tick m ≡ some m' → Keeps all m'
    unfolding step
    tick-Keeps waiting e h =
        reaches h (rw e refl) (take-Keeps all m sending m.flush_pending (λ es. refl) e k)
    tick-Keeps (sending es) e h = stuck h (rw e refl)
    tick-Keeps (closing es) e h = stuck h (rw e refl)
    tick-Keeps finished e h = stuck h (rw e refl)

    flush_wake-Keeps :
        (w : Worker fl) → m.worker ≡ w → step publish flush_wake m ≡ some m' → Keeps all m'
    unfolding step
    flush_wake-Keeps waiting e h = elim (Bool-cases m.flush_pending) [
      | inl pending ↦
          reaches h (rw (e, pending) refl) (take-Keeps all m sending false (λ es. refl) e k)
      | inr empty ↦ stuck h (rw (e, empty) refl)
    ]
    flush_wake-Keeps (sending es) e h = stuck h (rw e refl)
    flush_wake-Keeps (closing es) e h = stuck h (rw e refl)
    flush_wake-Keeps finished e h = stuck h (rw e refl)

    stop_wake-Keeps :
        (w : Worker fl) → m.worker ≡ w → step publish stop_wake m ≡ some m' → Keeps all m'
    unfolding step
    stop_wake-Keeps waiting e h = elim (Bool-cases m.stopped) [
      | inl stopped ↦
          reaches h (rw (e, stopped) refl)
            (take-Keeps all m closing m.flush_pending (λ es. refl) e k)
      | inr open_ ↦ stuck h (rw (e, open_) refl)
    ]
    stop_wake-Keeps (sending es) e h = stuck h (rw e refl)
    stop_wake-Keeps (closing es) e h = stuck h (rw e refl)
    stop_wake-Keeps finished e h = stuck h (rw e refl)

    round-Keeps : (w : Worker fl) → m.worker ≡ w → step publish send m ≡ some m' → Keeps all m'
    unfolding step
    round-Keeps waiting e h = stuck h (rw e refl)
    round-Keeps (sending []) e h =
        reaches h (rw e refl) (end-Keeps all m waiting (ap in_hand e) refl k)
    round-Keeps (sending (x ∷ es)) e h =
        reaches h (rw e refl) (send-Keeps all m x es (sending es) (ap in_hand e) refl k)
    round-Keeps (closing []) e h =
        reaches h (rw e refl) (end-Keeps all m finished (ap in_hand e) refl k)
    round-Keeps (closing (x ∷ es)) e h =
        reaches h (rw e refl) (send-Keeps all m x es (closing es) (ap in_hand e) refl k)
    round-Keeps finished e h = stuck h (rw e refl)

    stop_call-Keeps : step publish stop_call m ≡ some m' → Keeps all m'
    unfolding step
    stop_call-Keeps h = elim (Bool-cases m.stopped) [
      | inl again ↦ stuck h (rw again refl)
      | inr first ↦ reaches h (rw first refl) (stopped-Keeps k)
    ]
      where
        stopped-Keeps : Keeps all m → Keeps all (record m { stopped = true })
        stopped-Keeps k = record {
          handled = k.handled;
          order = k.order;
          log = k.log;
          woken = k.woken;
          client = k.client;
          retries = k.retries;
          batch = k.batch;
        }

    signal-Keeps : (n : ℕ) → m.signalling ≡ n → step publish signal m ≡ some m' → Keeps all m'
    unfolding step
    signal-Keeps zero e h = stuck h (rw e refl)
    signal-Keeps (suc n) e h =
        reaches h {m₁ = record m { signalling = n; flush_pending = true }} (rw e refl) (record {
          handled = k.handled;
          order = k.order;
          log = k.log;
          woken = λ big. inl refl;
          client = k.client;
          retries = k.retries;
          batch = k.batch;
        })

    pub step-Keeps :
        (event : Event fl) → step publish event m ≡ some m' → Keeps (all ++ one_added event) m'
    unfolding step
    step-Keeps (add e) h = reaches h refl (add-Keeps all e m k)
    step-Keeps signal h =
        subst (λ xs. Keeps xs m') (sym (append-nil all)) (signal-Keeps m.signalling refl h)
    step-Keeps stop_call h = subst (λ xs. Keeps xs m') (sym (append-nil all)) (stop_call-Keeps h)
    step-Keeps stop_wake h =
        subst (λ xs. Keeps xs m') (sym (append-nil all)) (stop_wake-Keeps m.worker refl h)
    step-Keeps tick h =
        subst (λ xs. Keeps xs m') (sym (append-nil all)) (tick-Keeps m.worker refl h)
    step-Keeps flush_wake h =
        subst (λ xs. Keeps xs m') (sym (append-nil all)) (flush_wake-Keeps m.worker refl h)
    step-Keeps send h =
        subst (λ xs. Keeps xs m') (sym (append-nil all)) (round-Keeps m.worker refl h)
