-- ===== src/ToolQueue/Stranded.antt =====
-- What a wait that times out does to the other calls of its tool.
use agentplug.Base.{ℕ, ◌+◌, ◌≤◌, ◌<◌, ◌≡◌, refl, true, List, ◌∷◌, Option, none, some, arith}
use agentplug.Base.Maps.{Text, text_key, text_eq_iff, lookup, lookup-put}
use agentplug.ToolQueue.{
  ToolQueue, enter, serve, give_up, release, World, Call, panicked, acquire_loop, Round, time_out,
  put_queue, look,
}

-- The operations of other threads that leave the queue in the map.
pub data Later : ToolQueue → ToolQueue → Type 0 where
  same : (q : ToolQueue) → Later q q
  enters : {q r : ToolQueue} → Later q r → Later q (enter (some r)).1
  serves : {q r s : ToolQueue} (ticket : ℕ) → Later q r → serve r ticket ≡ some s → Later q s
  gives_up : {q r s : ToolQueue} (ticket : ℕ) → Later q r → give_up r ticket ≡ some s → Later q s
  releases : {q r s : ToolQueue} → Later q r → release r ≡ some s → Later q s

serve-le : (r s : ToolQueue) (ticket : ℕ) → serve r ticket ≡ some s → r.now_serving ≤ s.now_serving
unfolding serve
serve-le r s ticket e = ground arith

give_up-le :
    (r s : ToolQueue) (ticket : ℕ) → give_up r ticket ≡ some s → r.now_serving ≤ s.now_serving
unfolding give_up
give_up-le r s ticket e = ground arith

release-le : (r s : ToolQueue) → release r ≡ some s → r.now_serving ≤ s.now_serving
unfolding release
release-le r s e = ground arith

Later-le : {q r : ToolQueue} → Later q r → q.now_serving ≤ r.now_serving
unfolding enter
Later-le (same q) = omega arith
Later-le (enters l) = Later-le l
Later-le (serves {r} {s} ticket l e) = omega (arith, Later-le l, serve-le r s ticket e)
Later-le (gives_up {r} {s} ticket l e) = omega (arith, Later-le l, give_up-le r s ticket e)
Later-le (releases {r} {s} l e) = omega (arith, Later-le l, release-le r s e)

give_up_past :
    (q q' : ToolQueue) (ticket : ℕ) → give_up q ticket ≡ some q' → ticket < q'.now_serving
unfolding give_up
give_up_past q q' ticket e = ground arith

serve_past : (r : ToolQueue) (t : ℕ) → t < r.now_serving → serve r t ≡ none
unfolding serve
serve_past r t h = ground arith

-- A wait that times out strands every call that waits in front of it: once `ticket` has given up and the
-- queue is still in the map, no lower ticket is served by it, whatever the other threads do as long as it
-- stays there.
pub give_up_strands :
    (q : ToolQueue) {q' r : ToolQueue} {ticket t : ℕ}
    → t < ticket
    → give_up q ticket ≡ some q'
    → Later q' r
    → serve r t ≡ none
give_up_strands q {q'} {r} {ticket} {t} lower e l =
    serve_past r t (omega (arith, give_up_past q q' ticket e, Later-le l))

-- When the newest ticket times out, still waiting, while a guard is held, the queue is taken out of the
-- map, and the next call to arrive is served at once: two guards of one tool are held together.
pub give_up_breaks_exclusion :
    (q : ToolQueue) (ticket : ℕ)
    → q.active ≡ true
    → q.next_ticket ≡ ticket + 1
    → q.now_serving ≤ ticket
    → let (arrival, entered) = enter (give_up q ticket) in
      (give_up q ticket ≡ none)
      × ((s : ToolQueue) × (serve entered arrival ≡ some s) × (s.active ≡ true))
unfolding give_up enter serve
give_up_breaks_exclusion q ticket running newest behind =
    let gone : give_up q ticket ≡ none = ground arith in
    rw (gone, give_up)
      (refl, (record { next_ticket = 1; now_serving = 1; active = true }, refl, refl))

time_out_gone :
    (w : World) (key : Text) (q : ToolQueue) (ticket waited : ℕ)
    → lookup key w.inflight ≡ some q
    → give_up q ticket ≡ none
    → lookup key (time_out w key ticket waited).0.inflight ≡ none
unfolding time_out put_queue
time_out_gone w key q ticket waited here gone =
    rw (here, time_out, gone)
      (ground (arith, lookup-put {V = ToolQueue} key key none w.inflight, text_eq_iff key key))

-- When the newest ticket times out, still waiting, any other call of the tool that looks at the queue next
-- panics: the queue that its ticket was assigned to is no longer in the map.
pub time_out_panics :
    (w : World) (key : Text) (q : ToolQueue) (ticket waited : ℕ) (call : Call) (lower now : ℕ)
    (others : Option (World → World)) (rounds : List Round) (earlier : World)
    → lookup key w.inflight ≡ some q
    → q.next_ticket ≡ ticket + 1
    → q.now_serving ≤ ticket
    → (acquire_loop call key lower
        (record { before = λ _. (time_out w key ticket waited).0; now = now; timed_out = others }
          ∷ rounds)
        earlier).1
      ≡ panicked
unfolding acquire_loop look
time_out_panics w key q ticket waited call lower now others rounds earlier here newest behind =
    rw (time_out_gone w key q ticket waited here (unfold give_up in (ground arith))) refl
