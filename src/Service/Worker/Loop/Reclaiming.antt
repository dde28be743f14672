-- ===== src/Service/Worker/Loop/Reclaiming.antt =====
-- A pass of the reclaiming over the pending entries, page after page.
use mathlib.Core.List.{append_assoc, append-nil}
use chrono_flow.Common.{
  ltb, Bool-cases, ◌+◌, ◌≤◌, String, ◌≡◌, refl, sym, ap, ◌∙◌, inl, inr, Bool, true, false, some,
  List, [], ◌∷◌, ◌++◌, arith,
}
use chrono_flow.Effect.{Result, ok, err}
use chrono_flow.Config.{seconds, WorkerConfig}
use chrono_flow.Model.Timer.{Time}
use chrono_flow.Service.Stream.Messages.{
  decode_messages, read_new, auto_claim, StreamMessage, Entry,
}
use chrono_flow.Service.Worker.Loop.{
  submit_all, or_start, after_read, reclaim, turn_once, start, WorkerLoop, Turn,
}

-- The messages that were submitted as reclaimed.
unfoldable pub reclaimed_of : List (StreamMessage × Bool) → List StreamMessage
reclaimed_of [] = []
reclaimed_of ((msg, true) ∷ rest) = msg ∷ reclaimed_of rest
reclaimed_of ((msg, false) ∷ rest) = reclaimed_of rest

reclaimed_of-append :
    (xs ys : List (StreamMessage × Bool))
    → reclaimed_of (xs ++ ys) ≡ reclaimed_of xs ++ reclaimed_of ys
unfolding reclaimed_of
reclaimed_of-append [] ys = refl
reclaimed_of-append ((msg, true) ∷ xs) ys = ap (λ l. msg ∷ l) (reclaimed_of-append xs ys)
reclaimed_of-append ((msg, false) ∷ xs) ys = reclaimed_of-append xs ys

reclaimed_of-submit_all :
    (takes : StreamMessage → Bool) (msgs : List StreamMessage)
    → ((msg : StreamMessage) → takes msg ≡ true)
    → reclaimed_of (submit_all takes true msgs) ≡ msgs
unfolding reclaimed_of submit_all
reclaimed_of-submit_all takes [] h = refl
reclaimed_of-submit_all takes (msg ∷ msgs) h =
    rw (h msg) (ap (λ l. msg ∷ l) (reclaimed_of-submit_all takes msgs h))

reclaimed_of-submit_new :
    (takes : StreamMessage → Bool) (msgs : List StreamMessage)
    → reclaimed_of (submit_all takes false msgs) ≡ []
unfolding reclaimed_of submit_all
reclaimed_of-submit_new takes [] = refl
reclaimed_of-submit_new takes (msg ∷ msgs) = elim (Bool-cases (takes msg)) [
  | inl t ↦ rw (t, reclaimed_of) (reclaimed_of-submit_new takes msgs)
  | inr t ↦ rw t (reclaimed_of-submit_new takes msgs)
]

module _ (print_bytes : String → String) (cfg : WorkerConfig) where
  -- Each round comes when reclaiming is due, XAUTOCLAIM answers at its cursor with a page and the
  -- cursor of the next one, and the pool takes every message.
  abbrev pub Pass : String → Time → List Turn → List (List Entry × String) → Type 0
  Pass cursor due [] [] = Unit {0}
  Pass cursor due (turn ∷ turns) ((entries, next) ∷ pages) =
      (turn.claim_answer cursor ≡ ok (some (entries, next)))
      × (due ≤ turn.now)
      × ((msg : StreamMessage) → turn.takes msg ≡ true)
      × Pass (or_start next) (turn.claimed_at + seconds cfg.reclaim_interval_seconds) turns pages
  Pass cursor due _ _ = ⊥

  -- The messages of all pages.
  abbrev pub pending_messages : List (List Entry × String) → List StreamMessage
  pending_messages [] = []
  pending_messages ((entries, next) ∷ pages) =
      decode_messages print_bytes entries ++ pending_messages pages

  abbrev pub last_cursor : String → List (List Entry × String) → String
  last_cursor cursor [] = cursor
  last_cursor cursor ((entries, next) ∷ pages) = last_cursor (or_start next) pages

  record Reclaims (turn : Turn) (w v : WorkerLoop) (entries : List Entry) (next : String)
      : Type 0 where
    moved : v.reclaim_cursor ≡ or_start next
    timed : v.next_reclaim ≡ turn.claimed_at + seconds cfg.reclaim_interval_seconds
    handed :
        reclaimed_of v.submitted ≡ reclaimed_of w.submitted ++ decode_messages print_bytes entries

  after_read-Reclaims :
      (turn : Turn) (w v : WorkerLoop) (entries : List Entry) (next : String)
      (answer : Result (List StreamMessage))
      → Reclaims turn w v entries next
      → Reclaims turn w (after_read turn v answer) entries next
  after_read-Reclaims turn w v entries next (err e) r = r
  after_read-Reclaims turn w v entries next (ok msgs) r = record {
    moved = r.moved;
    timed = r.timed;
    handed =
        reclaimed_of-append v.submitted (submit_all turn.takes false msgs)
        ∙ rw (reclaimed_of-submit_new turn.takes msgs, append-nil) r.handed;
  }

  reclaim-Reclaims :
      (turn : Turn) (w : WorkerLoop) (entries : List Entry) (next : String)
      → turn.claim_answer w.reclaim_cursor ≡ ok (some (entries, next))
      → w.next_reclaim ≤ turn.now
      → ((msg : StreamMessage) → turn.takes msg ≡ true)
      → Reclaims turn w (reclaim print_bytes cfg turn w) entries next
  unfolding reclaim auto_claim
  reclaim-Reclaims turn w entries next answered due taken =
      let t : ltb turn.now w.next_reclaim ≡ false = ground arith in
      rw (t, answered)
        (record {
          moved = refl;
          timed = refl;
          handed =
              reclaimed_of-append w.submitted
                (submit_all turn.takes true (decode_messages print_bytes entries))
              ∙ rw (reclaimed_of-submit_all turn.takes (decode_messages print_bytes entries) taken)
                  refl;
        })

  -- While the rounds make a pass, with anything that is read in between, the messages that have been
  -- submitted as reclaimed grow by exactly those of the pages, in their order, and the cursor ends
  -- where the last page says, or at the start where it says nothing.
  pub start_reclaims :
      (turns : List Turn) (pages : List (List Entry × String)) (w : WorkerLoop)
      → Pass w.reclaim_cursor w.next_reclaim turns pages
      → (reclaimed_of (start print_bytes cfg turns w).submitted
          ≡ reclaimed_of w.submitted ++ pending_messages pages)
        × ((start print_bytes cfg turns w).reclaim_cursor ≡ last_cursor w.reclaim_cursor pages)
  unfolding start turn_once
  start_reclaims [] [] w h = (sym (append-nil _), refl)
  start_reclaims [] (page ∷ pages) w h = absurd h
  start_reclaims (turn ∷ turns) [] w h = absurd h
  start_reclaims (turn ∷ turns) ((entries, next) ∷ pages) w (answered, due, taken, rest) =
      let v = reclaim print_bytes cfg turn w in
      let r =
        after_read-Reclaims turn w v entries next (read_new print_bytes turn.read_answer)
          (reclaim-Reclaims turn w entries next answered due taken) in
      let later =
        start_reclaims turns pages (after_read turn v (read_new print_bytes turn.read_answer))
          (rw (r.moved, r.timed) rest) in
      (
        later.0
            ∙ rw r.handed (
                append_assoc (reclaimed_of w.submitted) (decode_messages print_bytes entries)
                  (pending_messages pages)),
        later.1 ∙ rw r.moved refl,
      )
