-- ===== src/Jobs/Loops.antt =====
-- How the two loops answer what they are sent.
use universal_cross_shell_ex.Prelude.{
  ◌≡◌, refl, ap, sym, ◌∙◌, Bool, true, false, List, [], ◌∷◌, ◌++◌, Option, none, some, All, map,
  if◌then◌else◌, Bool-cases, inl, inr,
}
use mathlib.Core.List.{append-nil}
use universal_cross_shell_ex.Jobs.{
  Reply, ack, nak, Subscriber, Ending, waiting, stopped, Answers, answer, work, start, hear, listen,
}

module _ {M D : Type 0} (sub : Subscriber M D) where
  -- A message that can be answered.
  abbrev pub Answerable : M → Type 0
  Answerable m = sub.nak_ok m ≡ true

  -- A message that the worker can read: it parses, and names its record.
  abbrev pub Readable : M → Type 0
  Readable m = (d : D) × (sub.loads m ≡ some d) × (sub.has_command_id d ≡ true)

  -- Whether the callback takes what the message holds, and the acknowledgement arrives.
  abbrev pub taken : M → Option D → Bool
  taken m none = false
  taken m (some d) = if sub.callback d then sub.ack_ok m else false

  abbrev pub verdict : M → Reply
  verdict m = if taken m (sub.loads m) then ack else nak

  abbrev pub verdicts : List M → List (M × Reply)
  verdicts ms = map (λ m. (m, verdict m)) ms

  hear-answers :
      (m : M) (o : Option D) (rest : Answers M)
      → Answerable m
      → hear sub m o rest ≡ answer m (if taken m o then ack else nak) rest
  hear-answers m none (rs, e) h = rw h
  hear-answers m (some d) (rs, e) h = elim (Bool-cases (sub.callback d)) [
    | inl c ↦ elim (Bool-cases (sub.ack_ok m)) [ inl a ↦ rw (c, a) | inr a ↦ rw (c, a, h) ]
    | inr c ↦ rw (c, h)
  ]

  -- The bus answers every message, in order and once: with `ack` where the message parses, the
  -- callback takes it and the acknowledgement arrives, and with `nak` otherwise.
  pub listen_lem : (ms : List M) → All Answerable ms → listen sub ms ≡ (verdicts ms, waiting)
  unfolding listen
  listen_lem [] h = refl
  listen_lem (m ∷ ms) h =
      hear-answers m (sub.loads m) (listen sub ms) h.0
      ∙ ap (answer m (verdict m)) (listen_lem ms h.1)

  work-answers :
      (m : M) (rest : Answers M)
      → Readable m
      → Answerable m
      → work sub m (sub.loads m) rest ≡ answer m (verdict m) rest
  work-answers m rest (d, e, c) h = rw (e, c) (hear-answers m (some d) rest h)

  -- The answers to a first part of the messages, and what follows.
  abbrev pub after_all : List M → Answers M → Answers M
  after_all [] rest = rest
  after_all (m ∷ ms) rest = answer m (verdict m) (after_all ms rest)

  after_all_lem : (ms : List M) (e : Ending) → after_all ms ([], e) ≡ (verdicts ms, e)
  after_all_lem [] e = refl
  after_all_lem (m ∷ ms) e = ap (answer m (verdict m)) (after_all_lem ms e)

  start-append :
      (pre rest : List M)
      → All Readable pre
      → All Answerable pre
      → start sub (pre ++ rest) ≡ after_all pre (start sub rest)
  unfolding start
  start-append [] rest r h = refl
  start-append (m ∷ ms) rest r h =
      work-answers m (start sub (ms ++ rest)) r.0 h.0
      ∙ ap (answer m (verdict m)) (start-append ms rest r.1 h.1)

  -- On messages that parse, name their record and can be answered, the worker and the bus both give
  -- each message one answer, in order, and then wait: `ack` where the callback takes the message and
  -- the acknowledgement arrives, and `nak` otherwise.
  pub start-listen :
      (ms : List M)
      → All Readable ms
      → All Answerable ms
      → let answers : List (M × Reply) =
          map (λ m. (m, if taken m (sub.loads m) then ack else nak)) ms in
        (start sub ms ≡ (answers, waiting)) × (listen sub ms ≡ (answers, waiting))
  unfolding start
  start-listen ms r h = (
    ap (start sub) (sym (append-nil ms)) ∙ (start-append ms [] r h ∙ after_all_lem ms waiting),
    listen_lem ms h,
  )

  -- A message that does not parse ends the worker: those before it are answered, it and all that
  -- follow are not.
  pub start_stops :
      (pre rest : List M) (m : M)
      → All Readable pre
      → All Answerable pre
      → sub.loads m ≡ none
      → start sub (pre ++ (m ∷ rest)) ≡ (verdicts pre, stopped)
  unfolding start
  start_stops pre rest m r h bad =
      start-append pre (m ∷ rest) r h ∙ (ap (after_all pre) (rw bad) ∙ after_all_lem pre stopped)
