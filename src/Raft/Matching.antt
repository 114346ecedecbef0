-- ===== src/Raft/Matching.antt =====
-- What `appendEntries` of pkg/raft/node.go makes of a follower's log.
use mathlib.Core.List.{append_assoc}
use edgesim_p2p.Base.{
  ℕ, suc, ◌≤◌, ◌≡◌, refl, sym, ◌∙◌, true, false, List, [], ◌∷◌, ◌++◌, some, arith, ◌==◌,
  if◌then◌else◌, length, get_elem?, take, drop, length-append, length-take, take_all, Bool-cases,
  inl, inr, get_elem?-lt, get_elem?-none, drop_all, get_elem?-cases, take-append-drop, drop-get,
  take_extend,
}
use edgesim_p2p.Raft.Types.{LogEntry}
use edgesim_p2p.Raft.Log.{place_entry, append_entries}

-- The reference: keep the log while the terms agree, and take the new entries from the first place
-- where they do not, or where the log ends.
unfoldable pub splice : List LogEntry → List LogEntry → List LogEntry
splice [] entries = entries
splice (x ∷ log) [] = x ∷ log
splice (x ∷ log) (e ∷ entries) =
    let rest = splice log entries in if x.term == e.term then x ∷ rest else e ∷ entries

place_end : (log : List LogEntry) (e : LogEntry) → place_entry (length log) e log ≡ log ++ e ∷ []
unfolding place_entry
place_end log e = rw (get_elem?-none log (length log) (omega arith), place_entry)

place_same :
    (i : ℕ) (log : List LogEntry) (e old : LogEntry)
    → get_elem? log i ≡ some old
    → (old.term == e.term) ≡ true
    → place_entry i e log ≡ log
unfolding place_entry
place_same i log e old h p = rw (h, place_entry) (ground arith)

place_conflict :
    (i : ℕ) (log : List LogEntry) (e old : LogEntry)
    → get_elem? log i ≡ some old
    → (old.term == e.term) ≡ false
    → place_entry i e log ≡ take i log ++ e ∷ []
unfolding place_entry
place_conflict i log e old h p = rw (h, place_entry) (rw p)

splice-nil : (log : List LogEntry) → splice log [] ≡ log
unfolding splice
splice-nil [] = refl
splice-nil (x ∷ log) = refl

pub splice_same :
    (x e : LogEntry) (log entries : List LogEntry)
    → (x.term == e.term) ≡ true
    → splice (x ∷ log) (e ∷ entries) ≡ x ∷ splice log entries
unfolding splice
splice_same x e log entries h = rw h

pub splice_conflict :
    (x e : LogEntry) (log entries : List LogEntry)
    → (x.term == e.term) ≡ false
    → splice (x ∷ log) (e ∷ entries) ≡ e ∷ entries
unfolding splice
splice_conflict x e log entries h = rw h

-- Each case of one round, on the reference.
module _ (prev : ℕ) (e : LogEntry) (entries log : List LogEntry) where
  abbrev after_round : List LogEntry → List LogEntry
  after_round log' = take (suc prev) log' ++ splice (drop (suc prev) log') entries

  abbrev spliced : List LogEntry
  spliced = take prev log ++ splice (drop prev log) (e ∷ entries)

  round_end : prev ≡ length log → after_round (log ++ e ∷ []) ≡ spliced
  unfolding splice
  round_end h =
      rw
        (
          take_all (suc prev) (log ++ e ∷ []) (omega (arith, length-append log (e ∷ []))),
          drop_all (suc prev) (log ++ e ∷ []) (omega (arith, length-append log (e ∷ []))),
          take_all prev log (omega arith),
          drop_all prev log (omega arith),
        )
        (append_assoc log (e ∷ []) entries)

  module _ (old : LogEntry) (here : get_elem? log prev ≡ some old) where
    round_same : (old.term == e.term) ≡ true → after_round log ≡ spliced
    unfolding splice
    round_same same =
        rw (take_extend prev log here, drop-get prev log here)
          (rw same (append_assoc (take prev log) (old ∷ []) _))

    round_conflict : (old.term == e.term) ≡ false → after_round (take prev log ++ e ∷ []) ≡ spliced
    unfolding splice
    round_conflict conflict =
        let short : length (take prev log ++ e ∷ []) ≤ suc prev =
          omega (arith, length-append (take prev log) (e ∷ []), length-take prev log) in
        rw
          (
            take_all (suc prev) (take prev log ++ e ∷ []) short,
            drop_all (suc prev) (take prev log ++ e ∷ []) short,
            drop-get prev log here,
          )
          (rw conflict (append_assoc (take prev log) (e ∷ []) entries))

-- The loop, from index `prev`, at most the end of the log, keeps what stands before `prev` and
-- splices the entries in behind it.
pub append_entries-splice :
    (entries log : List LogEntry) (prev : ℕ)
    → prev ≤ length log
    → append_entries prev entries log ≡ take prev log ++ splice (drop prev log) entries
unfolding append_entries
append_entries-splice [] log prev h =
    rw (splice-nil (drop prev log)) (sym (take-append-drop prev log))
append_entries-splice (e ∷ entries) log prev h = elim (get_elem?-cases log prev h) [
  | inl end ↦
      rw (end, place_end log e)
        (append_entries-splice entries (log ++ e ∷ []) (suc (length log))
            (omega (arith, length-append log (e ∷ [])))
          ∙ round_end (length log) e entries log refl)
  | inr (old, here) ↦ elim (Bool-cases (old.term == e.term)) [
    | inl same ↦ rw (place_same prev log e old here same) (
        append_entries-splice entries log (suc prev) (omega (arith, get_elem?-lt log prev here))
        ∙ round_same prev e entries log old here same)
    | inr conflict ↦ rw (place_conflict prev log e old here conflict) (
        append_entries-splice entries (take prev log ++ e ∷ []) (suc prev) (
          omega (
            arith,
            get_elem?-lt log prev here,
            length-append (take prev log) (e ∷ []),
            length-take prev log,
          ))
        ∙ round_conflict prev e entries log old here conflict)
  ]
]
