-- ===== src/Runtime/Coordinator/Exclusion.antt =====
-- One operation at a time for a chat, in the order of the calls, and no call waits for ever.
use tavern_mnemosyne.Prelude.{
  ℕ, suc, zero, ◌<◌, ◌≡◌, ◌≢◌, inl, inr, none, some, Text, text_eq, text_eq_iff, text_eq_refl,
  nat_eq, Bool-cases, Option-cases, arith,
}
use tavern_mnemosyne.Runtime.Coordinator.{
  waiting, running, released, Coordinator, create, run, start, release, Resolved, resolved, Step,
  called, started, ended, Reachable, fresh, step,
}

-- Every earlier call for the chat has ended.
abbrev Earlier : Coordinator → Text → ℕ → Type 0
Earlier c chat n = (u : ℕ) → u < n → c.chat_of u ≡ chat → c.phase u ≡ released

record Ordered (c : Coordinator) : Type 0 where
  begun : (t : ℕ) → t < c.next → c.phase t ≢ waiting → Earlier c (c.chat_of t) t
  behind :
      (t p : ℕ)
      → t < c.next
      → c.previous t ≡ some p
      → (p < t)
        × ((c.chat_of p ≡ c.chat_of t) × ((u : ℕ) → p < u → u < t → c.chat_of u ≢ c.chat_of t))
  first : (t : ℕ) → t < c.next → c.previous t ≡ none → Earlier c (c.chat_of t) t
  tail :
      (k : Text) (t : ℕ)
      → c.tails k ≡ some t
      → (t < c.next) × ((c.chat_of t ≡ k) × ((u : ℕ) → t < u → u < c.next → c.chat_of u ≢ k))
  held : (k : Text) (t : ℕ) → c.tails k ≡ some t → c.phase t ≢ released
  idle : (k : Text) → c.tails k ≡ none → Earlier c k c.next

run-Ordered : (chat : Text) (c : Coordinator) → Ordered c → Ordered (run chat c)
unfolding run
run-Ordered chat c o = record {
  begun = λ t below begun u earlier same. ground (arith, o.begun t _ _ u earlier);
  behind = λ t p below previous. elim (Bool-cases (nat_eq c.next t)) [
    | inl new ↦ ground (arith, new, o.tail chat p)
    | inr old ↦ ground (arith, old, o.behind t p)
  ];
  first = λ t below previous u earlier same. elim (Bool-cases (nat_eq c.next t)) [
    | inl new ↦ ground (arith, new, o.idle chat _ u)
    | inr old ↦ ground (arith, old, o.first t _ _ u)
  ];
  tail = λ k t tail. elim (Bool-cases (text_eq chat k)) [
    | inl new ↦ ground (arith, new, text_eq_iff chat k)
    | inr old ↦ ground (arith, old, o.tail k t, text_eq_iff chat k, text_eq_refl k)
  ];
  held = λ k t last. ground (arith, o.held k t, o.tail k t, text_eq_iff chat k);
  idle = λ k idle u earlier same. ground (arith, o.idle k _ u, text_eq_iff chat k, text_eq_refl k);
}

Resolved-phase : {c : Coordinator} {n : ℕ} → Resolved c n → c.phase n ≡ released
Resolved-phase (resolved done before) = done

start-Ordered :
    (n : ℕ) (c : Coordinator)
    → n < c.next
    → c.phase n ≡ waiting
    → ((p : ℕ) → c.previous n ≡ some p → c.phase p ≡ released)
    → Ordered c
    → Ordered (start n c)
unfolding start
start-Ordered n c below waits ready o =
    let earlier : Earlier c (c.chat_of n) n = λ u before same. elim (Option-cases (c.previous n)) [
      | inl none_before ↦ o.first n below none_before u before same
      | inr (p, before_n) ↦ ground (
        arith,
        o.behind n p below before_n,
        (o.behind n p below before_n).1.1 u,
        ready p before_n,
        o.begun p _ _ u,
      )
    ] in
    record {
      begun = λ t under begun u before same. elim (Bool-cases (nat_eq n t)) [
        | inl new ↦ ground (arith, new, earlier u)
        | inr old ↦ ground (arith, old, o.begun t under _ u before same, begun)
      ];
      behind = o.behind;
      first =
          λ t under previous u before same. ground (arith, o.first t under previous u before same);
      tail = o.tail;
      held = λ k t last. ground (arith, o.held k t last);
      idle = λ k idle u before same. ground (arith, o.idle k idle u before same);
    }

release-Ordered :
    (n : ℕ) (c : Coordinator) → n < c.next → c.phase n ≡ running → Ordered c → Ordered (release n c)
unfolding release
release-Ordered n c below runs o = record {
  begun = λ t under begun u before same. ground (arith, o.begun t under _ u before same);
  behind = o.behind;
  first = λ t under previous u before same. ground (arith, o.first t under previous u before same);
  tail = λ k t tail. ground (arith, o.tail k t);
  held = λ k t last.
      ground
        (arith, o.held k t, o.tail k t, text_eq_iff (c.chat_of n) k, text_eq_refl (c.chat_of n));
  idle = λ k idle u before same. elim (Option-cases (c.tails k)) [
    | inl idle_before ↦ ground (arith, o.idle k idle_before u before same)
    | inr (t, last) ↦ ground (
      arith,
      last,
      o.tail k t last,
      (o.tail k t last).1.1 u,
      o.begun t _ _ u,
      text_eq_iff (c.chat_of n) k,
    )
  ];
}

Step-Ordered : {c d : Coordinator} → Step c d → Ordered c → Ordered d
Step-Ordered (called {c = c} chat named) o = run-Ordered chat c o
Step-Ordered (started {c = c} n below waits ready) o =
    start-Ordered n c below waits (λ p before. Resolved-phase (ready p before)) o
Step-Ordered (ended {c = c} n below runs) o = release-Ordered n c below runs o

create-Ordered : Ordered create
create-Ordered = record {
  begun = λ t below begun u before same. absurd (ground arith);
  behind = λ t p below previous. absurd (ground arith);
  first = λ t below previous u before same. absurd (ground arith);
  tail = λ k t tail. absurd (ground arith);
  held = λ k t last. absurd (ground arith);
  idle = λ k idle u before same. absurd (ground arith);
}

Reachable-Ordered : {c : Coordinator} → Reachable c → Ordered c
Reachable-Ordered fresh = create-Ordered
Reachable-Ordered (step r s) = Step-Ordered s (Reachable-Ordered r)

-- In a state that is reached from a new coordinator, once a call's operation has begun every earlier
-- call for the same chat has ended.
pub begun_in_order :
    (c : Coordinator) (t u : ℕ)
    → Reachable c
    → t < c.next
    → c.phase t ≢ waiting
    → u < t
    → c.chat_of u ≡ c.chat_of t
    → c.phase u ≡ released
begun_in_order c t u r below begun before same =
    (Reachable-Ordered r).begun t below begun u before same

-- The tails that a chat's ended calls leave have resolved.
Earlier-Resolved :
    (c : Coordinator) (bound t : ℕ)
    → Ordered c
    → t < bound
    → t < c.next
    → c.phase t ≡ released
    → Resolved c t
Earlier-Resolved c zero t o under below done = absurd (ground arith)
Earlier-Resolved c (suc bound) t o under below done = resolved done (λ p before.
    let link = o.behind t p below before in
    Earlier-Resolved c bound p o (ground arith) (ground arith)
      (o.begun t below (ground arith) p link.0 link.1.0))

-- In a reachable state a waiting call can start if every earlier call for its chat has ended.
pub waiting_starts :
    (c : Coordinator) (t : ℕ)
    → Reachable c
    → t < c.next
    → c.phase t ≡ waiting
    → ((u : ℕ) → u < t → c.chat_of u ≡ c.chat_of t → c.phase u ≡ released)
    → Step c (start t c)
waiting_starts c t r below waits done =
    let o = Reachable-Ordered r in
    started t below waits (λ p before.
      let link = o.behind t p below before in
      Earlier-Resolved c (suc p) p o (ground arith) (ground arith) (done p link.0 link.1.0))

-- In a reachable state where every call for a chat has ended, `tails` holds nothing for it.
pub idle_forgotten :
    (c : Coordinator) (chat : Text)
    → Reachable c
    → ((u : ℕ) → u < c.next → c.chat_of u ≡ chat → c.phase u ≡ released)
    → c.tails chat ≡ none
idle_forgotten c chat r done =
    let o = Reachable-Ordered r in
    elim (Option-cases (c.tails chat)) [
      | inl forgotten ↦ forgotten
      | inr (t, last) ↦
          absurd (o.held chat t last (done t (o.tail chat t last).0 (o.tail chat t last).1.0))
    ]
