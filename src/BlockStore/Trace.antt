-- ===== src/BlockStore/Trace.antt =====
-- Any sequence of what Service asks of a store: it works, or it froze and said so once.
use mathlib.Core.Bool.{false≢true}
use solid_syslog.Base.{
  ℕ, zero, suc, ◌≤◌, ◌<◌, ◌≡◌, inl, inr, refl, ap, sym, ◌∙◌, Bool, false, if_lem, not, ◌&&◌, ltb,
  List, [], ◌∷◌, Bytes, length, if◌then◌else◌,
}
use solid_syslog.BlockStore.{is_read_succeeded}
use solid_syslog.BlockSequence.{has_unsent}
use solid_syslog.RecordStore.{forget_last_read, mark_last_read_as_sent}
use solid_syslog.Service.{StoreWriteResult, not_retained}
use solid_syslog.BlockSequence.{
  mark_sent_failed, read_failed, set_read_cursor, dispose_read_block_if_drained,
}
use solid_syslog.BlockSequence.Sound.{IsSound, dispose_if_drained-Keeps}
use solid_syslog.RecordStore.{
  ReadResult, succeeded, end_of_data, corrupt, rejected, finished_with, could_not_open,
  device_failed, MarkResult, mark_succeeded, mark_nothing_read, mark_device_failed,
}
use solid_syslog.BlockStore.{
  StorePorts, StorePass, by_sequence, by_records, on_blocks, on_store, freeze,
  freeze_if_device_failed, store_record, write, forget_read, step_past, read_loop, read_current,
  judge_read, is_read_failed, read_next_unsent, judge_mark, mark_sent, store_write,
  store_read_next_unsent, store_mark_sent,
}
use solid_syslog.BlockStore.Live.{
  Works, Froze, Live, Checked, checked, check_froze, Stepped, stepped, step_froze, IsRead,
  read_works, read_failing, AreRead, was_read, reads_froze, freeze-Froze, freeze_if-Checked,
  store_record-Live,
}
use solid_syslog.BlockStore.Steps.{step_past-Stepped, read_current-IsRead}

-- what Service asks of a store; a read has fuel for its loop
pub data StoreOperation : Type 0 where
  writes : Bytes → StoreOperation
  reads_next : ℕ → ℕ → StoreOperation
  marks_sent : StoreOperation

module _ {W : Type 0} (max max_message_size : ℕ) (ports : StorePorts W) where
  read_loop-AreRead :
      (fuel max_size : ℕ) (x : (ReadResult × Bytes) × StorePass W)
      → IsRead max x
      → AreRead max (read_loop max_message_size ports fuel max_size x.0 x.1)
  unfolding read_loop step_past
  read_loop-AreRead zero max_size x h = was_read x h
  read_loop-AreRead (suc fuel) max_size x (read_failing bytes q h) =
      was_read ((device_failed, bytes), q) (read_failing bytes q h)
  read_loop-AreRead (suc fuel) max_size x (read_works r q h) =
      goes_on (read_loop-AreRead fuel max_size) (step_past max_message_size ports r.0 q)
        (step_past-Stepped max max_message_size ports r.0 q h) (froze_by r.0)
    where
      goes_on :
          ((y : (ReadResult × Bytes) × StorePass W)
            → IsRead max y
            → AreRead max (read_loop max_message_size ports fuel max_size y.0 y.1))
          → (t : Bool × StorePass W) → Stepped max t
          → ((p : StorePass W) → t ≡ (false, p) → Froze max p → is_read_failed r.0 ≡ false)
          → let again = read_current max_message_size ports max_size t.1 in
            let rest = read_loop max_message_size ports fuel max_size again.0 again.1 in
            let answer : (ReadResult × Bytes) × StorePass W = if t.0 then rest else (r, t.1) in
            AreRead max answer
      goes_on again t (stepped b p works) froze_not =
          let next = read_current max_message_size ports max_size p in
          if_lem (AreRead max) b (read_loop max_message_size ports fuel max_size next.0 next.1)
            (r, p)
            (λ moved. again next (read_current-IsRead max max_message_size ports max_size p works))
            (λ ends. was_read (r, p) (read_works r p works))
      goes_on again t (step_froze p froze failed) froze_not =
          reads_froze r p (froze_not p refl froze) froze

      froze_by :
          (result : ReadResult) (p : StorePass W)
          → step_past max_message_size ports result q ≡ (false, p)
          → Froze max p
          → is_read_failed result ≡ false
      froze_by succeeded p e froze = refl
      froze_by end_of_data p e froze = refl
      froze_by corrupt p e froze = refl
      froze_by rejected p e froze = refl
      froze_by finished_with p e froze = refl
      froze_by could_not_open p e froze = refl
      froze_by device_failed p e froze = absurd (
          false≢true
            (sym h.0.0 ∙ ap (λ (t : Bool × StorePass W). t.1.block_store.frozen) e ∙ froze.0))

  failing-Froze :
      {p : StorePass W} (x : Bool × StorePass W)
      → Checked max p x
      → Froze max (if not x.0 then freeze max_message_size ports read_failed x.1 else x.1)
  failing-Froze {p} x (checked h) = freeze-Froze max max_message_size ports read_failed p h.0.1.1
  failing-Froze x (check_froze q h failed) = h

  judge_read-Live :
      (x : (ReadResult × Bytes) × StorePass W)
      → AreRead max x
      → Live max (judge_read max_message_size ports x.0.0 x.1)
  unfolding judge_read
  judge_read-Live x (reads_froze r q no_failure froze) =
      let c = freeze_if_device_failed max_message_size ports q in
      let failing : StorePass W =
        if not c.0 then freeze max_message_size ports read_failed c.1 else c.1 in
      let cleared = on_store (λ s. record s { loss_reported = false }) q in
      if_lem (Live max) (is_read_succeeded r.0) cleared (if is_read_failed r.0 then failing else q)
        (λ fine. inr froze)
        (λ other.
          if_lem (Live max) (is_read_failed r.0) failing q
            (λ failed. absurd (false≢true (sym no_failure ∙ failed))) (λ rest. inr froze))
  judge_read-Live x (was_read y (read_failing bytes q h)) = inr (
      failing-Froze (freeze_if_device_failed max_message_size ports q)
        (freeze_if-Checked max max_message_size ports q h))
  judge_read-Live x (was_read y (read_works r q h)) =
      let c = freeze_if_device_failed max_message_size ports q in
      let failing : StorePass W =
        if not c.0 then freeze max_message_size ports read_failed c.1 else c.1 in
      let cleared = on_store (λ s. record s { loss_reported = false }) q in
      if_lem (Live max) (is_read_succeeded r.0) cleared (if is_read_failed r.0 then failing else q)
        (λ fine. inl h)
        (λ other.
          if_lem (Live max) (is_read_failed r.0) failing q
            (λ failed. inr (failing-Froze c (freeze_if-Checked max max_message_size ports q h.0)))
            (λ rest. inl h))

  read_next_unsent-Live :
      (fuel max_size : ℕ) (p : StorePass W)
      → Works max p
      → Live max (read_next_unsent max_message_size ports fuel max_size p).1
  unfolding read_next_unsent
  read_next_unsent-Live fuel max_size p h =
      let first = read_current max_message_size ports max_size p in
      let x = read_loop max_message_size ports fuel max_size first.0 first.1 in
      if_lem (λ (y : (Bool × Bytes) × StorePass W). Live max y.1) (has_unsent p.sequence)
        ((ltb 0 (length x.0.1), x.0.1), judge_read max_message_size ports x.0.0 x.1)
        ((false, []), p)
        (λ some_unsent. judge_read-Live x (
          read_loop-AreRead fuel max_size first
            (read_current-IsRead max max_message_size ports max_size p h)))
        (λ none_unsent. inl h)

  judge_mark-Live :
      (r : MarkResult) (next_cursor : ℕ) (p : StorePass W)
      → Works max p
      → Live max (judge_mark max_message_size ports r next_cursor p)
  unfolding judge_mark forget_last_read
  judge_mark-Live mark_device_failed next_cursor p h =
      inr (freeze-Froze max max_message_size ports mark_sent_failed p h.0.1.1)
  judge_mark-Live mark_nothing_read next_cursor p h = inl h
  judge_mark-Live mark_succeeded next_cursor p ((not_frozen, (sound, none_told)), works) =
      let moved = on_blocks (set_read_cursor next_cursor) p in
      let disposed = by_sequence (dispose_read_block_if_drained ports.block_ports) moved in
      let still =
        dispose_if_drained-Keeps max ports.block_ports (IsSound max)
          (record { sequence = moved.sequence; world = moved.world }) sound sound.0
          (λ size known. sound) (λ s h. h) in
      forgets disposed.0 (freeze_if_device_failed max_message_size ports disposed.1)
        (freeze_if-Checked max max_message_size ports disposed.1 (not_frozen, (still, none_told)))
    where
      forgets :
          (changed : Bool) {q : StorePass W} (x : Bool × StorePass W)
          → Checked max q x
          → Live max (if not x.0 && changed then forget_read max_message_size ports x.1 else x.1)
      forgets changed {q} x (checked h) =
          if_lem (Live max) changed (forget_read max_message_size ports q) q (λ yes. inl h)
            (λ no. inl h)
      forgets changed x (check_froze q h failed) = inr h

  mark_sent-Live : (p : StorePass W) → Works max p → Live max (mark_sent max_message_size ports p)
  unfolding mark_sent
  mark_sent-Live p h =
      let m = by_records (mark_last_read_as_sent max_message_size ports.device ports.policy 0) p in
      judge_mark-Live m.0.0 m.0.1 m.1 h

  unfoldable pub ask : StoreOperation → StorePass W → StorePass W
  ask (writes message) p = (store_write max_message_size ports message p).1
  ask (reads_next fuel max_size) p =
      (store_read_next_unsent max_message_size ports fuel max_size p).1
  ask marks_sent p = store_mark_sent max_message_size ports p

  unfoldable pub ask_all : List StoreOperation → StorePass W → StorePass W
  ask_all [] p = p
  ask_all (o ∷ os) p = ask_all os (ask o p)

  module _ (some_block : 0 < max) (low : max ≤ 98) where
    -- the dispatch: a store that froze is not asked again
    ask-Live : (o : StoreOperation) (p : StorePass W) → Live max p → Live max (ask o p)
    unfolding ask write
    ask-Live (writes message) p (inr h) =
        if_lem (λ (x : StoreWriteResult × StorePass W). Live max x.1) p.block_store.frozen
          (not_retained, p) (write max_message_size ports message p) (λ frozen. inr h)
          (λ works. absurd (false≢true (sym works ∙ h.0)))
    ask-Live (reads_next fuel max_size) p (inr h) =
        if_lem (λ (x : (Bool × Bytes) × StorePass W). Live max x.1) p.block_store.frozen
          ((false, []), p) (read_next_unsent max_message_size ports fuel max_size p)
          (λ frozen. inr h) (λ works. absurd (false≢true (sym works ∙ h.0)))
    ask-Live marks_sent p (inr h) =
        if_lem (Live max) p.block_store.frozen p (mark_sent max_message_size ports p)
          (λ frozen. inr h) (λ works. absurd (false≢true (sym works ∙ h.0)))
    ask-Live (writes message) p (inl h) =
        let stored = store_record max_message_size ports message p in
        let written : StoreWriteResult × StorePass W =
          if ltb 0 (length message) then stored else (not_retained, p) in
        if_lem (λ (x : StoreWriteResult × StorePass W). Live max x.1) p.block_store.frozen
          (not_retained, p) written (λ frozen. inl h)
          (λ works.
            if_lem (λ (x : StoreWriteResult × StorePass W). Live max x.1) (ltb 0 (length message))
              stored (not_retained, p)
              (λ some_bytes.
                store_record-Live max max_message_size ports some_block low message p h)
              (λ no_bytes. inl h))
    ask-Live (reads_next fuel max_size) p (inl h) =
        if_lem (λ (x : (Bool × Bytes) × StorePass W). Live max x.1) p.block_store.frozen
          ((false, []), p) (read_next_unsent max_message_size ports fuel max_size p)
          (λ frozen. inl h) (λ works. read_next_unsent-Live fuel max_size p h)
    ask-Live marks_sent p (inl h) =
        if_lem (Live max) p.block_store.frozen p (mark_sent max_message_size ports p)
          (λ frozen. inl h) (λ works. mark_sent-Live p h)

    -- From a store that works over a sound sequence, or froze and said so once, whatever is written,
    -- read and marked, and whatever the ports answer, it is such a store afterwards.
    pub store-Live :
        (os : List StoreOperation) (p : StorePass W) → Live max p → Live max (ask_all os p)
    unfolding ask_all
    store-Live [] p h = h
    store-Live (o ∷ os) p h = store-Live os (ask o p) (ask-Live o p h)
