-- ===== src/Gate/Events/Spacing.antt =====
-- How often one process is queued.
use mathlib.Core.Path.{subst}
use ningshi.Prelude.{
  ℕ, ◌+◌, ◌<◌, ◌≡◌, ◌≢◌, refl, sym, ap, ◌∙◌, inl, inr, false, List, [], ◌∷◌, Option, none, some,
  arith, length, All, ltb, eqb, eqb_iff, Bool-cases, nat_key,
}
use ningshi.Prelude.Map.{Map, get, insert, get-insert, get-insert_self}
use ningshi.Gate.Events.{
  decode, retain_recent, is_recent, prune, Drain, handle_event, handle_item, drain,
}

get-retain_recent :
    (now : ℕ) (m : Map ℕ ℕ) (pid t : ℕ)
    → get m pid ≡ some t
    → now < t + 10
    → get (retain_recent now m) pid ≡ some t
unfolding get retain_recent
get-retain_recent now [] pid t h young = cc
get-retain_recent now ((p, s) ∷ m) pid t h young =
    ground (arith, get-retain_recent now m pid t, eqb_iff p pid)

get-prune :
    (now : ℕ) (m : Map ℕ ℕ) (pid t : ℕ)
    → get m pid ≡ some t
    → now < t + 10
    → get (prune now m) pid ≡ some t
unfolding prune
get-prune now m pid t h young = elim (Bool-cases (ltb 64 (length m))) [
  | inl many ↦ rw many (get-retain_recent now m pid t h young)
  | inr few ↦ rw few h
]

-- A pid that was queued at `t` is remembered for five seconds.
abbrev Remembers : Drain → ℕ → ℕ → Type 0
Remembers d pid t = get d.recent pid ≡ some t

handle_event_again :
    (pid uid t now : ℕ) (d : Drain)
    → Remembers d pid t
    → now < t + 5
    → handle_event (some (pid, uid)) now d ≡ d
unfolding handle_event
handle_event_again pid uid t now d h soon = rw h (ground arith)

queued-Remembers :
    (p uid pid t now : ℕ) (d : Drain)
    → Remembers d pid t
    → now < t + 5
    → eqb p pid ≡ false
    → Remembers (handle_event (some (p, uid)) now d) pid t
unfolding handle_event
queued-Remembers p uid pid t now d h soon other =
    elim (Bool-cases (is_recent (get d.recent p) now)) [
      | inl seen ↦ rw seen h
      | inr fresh ↦ rw fresh (
          get-prune now (insert d.recent p now) pid t (get-insert d.recent p pid now ∙ rw other h)
            (omega arith))
    ]

handle_event-Remembers :
    (o : Option (ℕ × ℕ)) (pid t now : ℕ) (d : Drain)
    → Remembers d pid t
    → now < t + 5
    → Remembers (handle_event o now d) pid t
handle_event-Remembers none pid t now d h soon = unfold handle_event in h
handle_event-Remembers (some (p, uid)) pid t now d h soon = elim (Bool-cases (eqb p pid)) [
  | inl same ↦
      subst (λ e. Remembers e pid t)
        (sym (
          handle_event_again p uid t now d
            (subst (λ x. Remembers d x t) (sym ((eqb_iff p pid).0 same)) h) soon))
        h
  | inr other ↦ queued-Remembers p uid pid t now d h soon other
]

drain-Remembers :
    (items : List (List ℕ × ℕ)) (pid t : ℕ) (d : Drain)
    → Remembers d pid t
    → All (λ (i : List ℕ × ℕ). i.1 < t + 5) items
    → Remembers (drain items d) pid t
unfolding drain handle_item
drain-Remembers [] pid t d h soon = h
drain-Remembers ((item, now) ∷ items) pid t d h soon =
    drain-Remembers items pid t _ (handle_event-Remembers (decode item) pid t now d h soon.0) soon.1

first-Remembers :
    (pid uid t : ℕ) (d : Drain)
    → (handle_event (some (pid, uid)) t d).sent ≢ d.sent
    → Remembers (handle_event (some (pid, uid)) t d) pid t
unfolding handle_event
first-Remembers pid uid t d sends = elim (Bool-cases (is_recent (get d.recent pid) t)) [
  | inl seen ↦ absurd (sends (rw seen refl))
  | inr fresh ↦
      rw fresh
        (get-prune t (insert d.recent pid t) pid t (get-insert_self d.recent pid t) (omega arith))
]

-- Once an item has put a pid on the killer's queue, no item puts it there again for five seconds,
-- under any uid, whatever other items come between and although the map of times is pruned.
pub handle_item_spaced :
    (item item' : List ℕ) (between : List (List ℕ × ℕ)) (pid uid uid' t t' : ℕ) (d : Drain)
    → decode item ≡ some (pid, uid)
    → decode item' ≡ some (pid, uid')
    → (handle_item item t d).sent ≢ d.sent
    → All (λ (i : List ℕ × ℕ). i.1 < t + 5) between
    → t' < t + 5
    → let d' = drain between (handle_item item t d) in handle_item item' t' d' ≡ d'
unfolding handle_item
handle_item_spaced item item' between pid uid uid' t t' d first again sends soon soon' =
    let sends' : (handle_event (some (pid, uid)) t d).sent ≢ d.sent =
      subst (λ o. (handle_event o t d).sent ≢ d.sent) first sends in
    let kept : Remembers (drain between (handle_event (decode item) t d)) pid t =
      subst (λ o. Remembers (drain between (handle_event o t d)) pid t) (sym first)
        (drain-Remembers between pid t _ (first-Remembers pid uid t d sends') soon) in
    ap (λ o. handle_event o t' (drain between (handle_event (decode item) t d))) again
    ∙ handle_event_again pid uid' t t' _ kept soon'
