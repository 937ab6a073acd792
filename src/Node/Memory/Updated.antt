-- ===== src/Node/Memory/Updated.antt =====
-- The caches behind `update`, and changes written over them.
use pyaseba.Base.{
  ℕ, ◌<◌, ◌≡◌, refl, ◌∙◌, ap, false, some, List, [], ◌∷◌, ◌++◌, arith, Text, text_eq, nat_eq, Dict,
  ℤ,
}
use pyaseba.Base.Dicts.{lookup-nil}
use pyaseba.Base.Heap.{Heap, next}
use pyaseba.Base.Results.{ok}
use pyaseba.Description.{Description}
use pyaseba.Client.{Call, Client}
use pyaseba.Node.State.{World, modify, bind-ok, here, the_client, ask}
use pyaseba.Node.Update.{new_lists, store_all, update_all, update, set_changes}
use pyaseba.Node.Memory.Layout.{end_of}
use pyaseba.Node.Memory.Round.{with_heap}
use pyaseba.Node.Memory.Changed.{memory, written, changed_names, IsTiled, set_changes-Refreshed}
use pyaseba.Node.Memory.Answers.{
  new_addresses, stored_heap, new_lists_lem, refreshed, refreshed-Mapped, memory-refreshed, Answers,
  answered,
}

module _ (client : Client) (desc : Description) (tiled : IsTiled desc) where
  abbrev vi : Dict ℕ (Text × ℕ)
  vi = desc.variables_by_index

  abbrev question : ℕ → World → Call
  question wait_ms w = Call.get_all_variables w.node_id wait_ms (here w)

  not_empty : (vi' : Dict ℕ (Text × ℕ)) → 0 < end_of 0 vi' → ¬ Answers [] vi'
  not_empty [] h a = absurd (omega arith)
  not_empty ((s, (name, size)) ∷ vi') h a = cc (lookup-nil {V = List ℤ} name, a.0.1)

  asked :
      (c wait_ms : ℕ) (w : World)
      → w.client ≡ some c
      → let calls = w.calls ++ (c, question wait_ms w) ∷ [] in
        update client wait_ms false w
        ≡ store_all client c (client.get_all_variables calls) (record w { calls = calls })
  unfolding update update_all the_client ask
  asked c wait_ms w e = ground (arith, e)

  stored :
      (c : ℕ) (vs : Dict Text (List ℤ)) (call : Call) (w : World)
      → Answers vs vi
      → store_all client c vs (record w { calls = w.calls ++ (c, call) ∷ [] })
        ≡ (ok tt, refreshed c call w vs)
  unfolding store_all
  stored c [] call w a = absurd (not_empty vi (omega (arith, tiled.whole, tiled.some_words)) a)
  stored c (v ∷ vs) call w a =
      let w' : World = record w { calls = w.calls ++ (c, call) ∷ [] } in
      bind-ok (new_lists client (v ∷ vs))
        (λ d. modify (λ w''. record w'' { variable_values = d; prev_variables_values = d })) w'
        (new_addresses (next w.heap) (v ∷ vs)) (with_heap w' (stored_heap w.heap (v ∷ vs)))
        (new_lists_lem client (v ∷ vs) w')

  module _ (c wait_ms : ℕ) (w : World) (connected : w.client ≡ some c)
      (described : w.description ≡ some desc) where
    abbrev answer : Dict Text (List ℤ)
    answer = client.get_all_variables (w.calls ++ (c, question wait_ms w) ∷ [])

    update_lem :
        Answers answer vi
        → update client wait_ms false w ≡ (ok tt, refreshed c (question wait_ms w) w answer)
    update_lem a = asked c wait_ms w connected ∙ stored c answer (question wait_ms w) w a

    -- If the client answers `update` with every variable of the description at its size, it
    -- returns, and both caches hold the words of the answer. Changes that are notified later are
    -- then written into these at their addresses, as one memory, up to the first change that lies
    -- behind the end; the names of the variables that they overlap are returned.
    pub update-set_changes :
        (changes : List (ℕ × List ℤ))
        → Answers answer vi
        → let (r, w1) = update client wait_ms false w in
          let size = desc.variables_size in
          let words = written size (answered answer vi) changes in
          (r ≡ ok tt)
          × (memory w1.heap w1.variable_values vi ≡ answered answer vi)
          × (memory w1.heap w1.prev_variables_values vi ≡ answered answer vi)
          × ((h : Heap ℤ) × (set_changes changes w1
                ≡ (ok (changed_names size vi changes), with_heap w1 h))
              × (memory h w1.variable_values vi ≡ words)
              × (memory h w1.prev_variables_values vi ≡ words))
    update-set_changes changes a =
        let w1 = refreshed c (question wait_ms w) w answer in
        let now = memory-refreshed w.heap answer vi a in
        let (h, run, r) =
          set_changes-Refreshed desc tiled changes w1 described
            (refreshed-Mapped c (question wait_ms w) w answer vi a) in
        rw (update_lem a) (
          refl,
          now,
          now,
          (
            h,
            run,
            r.values ∙ ap (λ words. written desc.variables_size words changes) now,
            r.prevs ∙ ap (λ words. written desc.variables_size words changes) now,
          ),
        )
