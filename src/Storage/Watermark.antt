-- ===== src/Storage/Watermark.antt =====
-- src/storage.rs, `save_stream_cursor`: the stored cursor under many saves.
use construct_tui.Prelude.{
  ℕ, ◌≡◌, ◌≢◌, refl, ◌∙◌, ◌⊎◌, inl, inr, Bool, true, false, not, Option, some, List, [], ◌∷◌, arith,
  All,
}
use mathlib.Core.List.{Mem, Mem-prop, mem-cons, not-mem-nil}
use mathlib.Core.Logic.Or
use construct_tui.Prelude.Bytes.{Bytes, split_once, =b-refl}
use construct_tui.Prelude.Dict.{lookup, insert, lookup-insert}
use construct_tui.Prelude.Utf8.{is_utf8}
use construct_tui.Prelude.Try.{Result, ok}
use construct_tui.Storage.{Storage, DbError, statement}
use construct_tui.Storage.Cursor.{parse_stream_cursor, cursor_after}
use construct_tui.Storage.Cursor.Order.{IsCursor, not_after_refl, not_after_trans, after→not_after}
use construct_tui.Storage.Secure.{stream_cursor_key, as_cursor, goes_back, save_stream_cursor}

-- The cursor that `load_stream_cursor` returns where SQLite does not refuse the query.
abbrev pub stored_cursor : Storage → Option Bytes
stored_cursor s = as_cursor (lookup stream_cursor_key s.secure_store)

-- A saved string is what is stored.
pub stored_cursor-insert :
    (c : ℕ) (cursor : Bytes) (s : Storage)
    → is_utf8 (c ∷ cursor) ≡ true
    → stored_cursor
        (record s { secure_store = insert stream_cursor_key (c ∷ cursor) s.secure_store })
      ≡ some (c ∷ cursor)
stored_cursor-insert c cursor s valid =
    rw (lookup-insert stream_cursor_key stream_cursor_key, =b-refl stream_cursor_key)
      (rw valid refl)

-- What one save of `c` does to the watermark: it takes `c` where it does not go back, and leaves
-- it, with all other keys, where `c` goes back or SQLite refuses a statement.
pub record Saved (c : Bytes) (s s' : Storage) (r : Result DbError Bool) : Type 0 where
  pub moved : (r ≡ ok true) ⊎ ((s'.secure_store ≡ s.secure_store) × (r ≢ ok true))
  pub forward : (r ≡ ok true) → goes_back c (stored_cursor s) ≡ false
  pub written : (r ≡ ok true) → stored_cursor s' ≡ some c
  pub calm : (s.faults ≡ []) → (r ≡ ok (not (goes_back c (stored_cursor s)))) × (s'.faults ≡ [])

pub save_stream_cursor-Saved :
    (c : ℕ) (cursor : Bytes) (s : Storage)
    → is_utf8 (c ∷ cursor) ≡ true
    → Saved
        (c ∷ cursor)
        s
        (save_stream_cursor (c ∷ cursor) s).1
        (save_stream_cursor (c ∷ cursor) s).0
unfolding save_stream_cursor statement
save_stream_cursor-Saved c cursor s valid = record {
  moved = ground arith;
  forward = λ h. ground arith;
  written = λ h. ground (arith, stored_cursor-insert c cursor s valid);
  calm = λ h. ground arith;
}

-- A run of saves, whatever their results.
unfoldable pub save_all : List Bytes → Storage → Storage
save_all [] s = s
save_all (c ∷ cs) s = save_all cs (save_stream_cursor c s).1

-- The watermark of a database: a well-formed cursor is stored.
pub record Watermark (s : Storage) (w : Bytes) : Type 0 where
  pub stored : stored_cursor s ≡ some w
  pub cursor : IsCursor w

-- What the saves of `cs` may make of the watermark `w`.
pub record Advanced (cs : List Bytes) (s s' : Storage) (w w' : Bytes) : Type 0 where
  pub mark : Watermark s' w'
  pub not_back : cursor_after w w' ≡ false
  pub member : Mem w' (w ∷ cs)
  pub newest : s.faults ≡ [] → (s'.faults ≡ []) × All (λ c. cursor_after c w' ≡ false) cs

not_nil : ¬ IsCursor []
unfolding parse_stream_cursor split_once
not_nil h = cc h.parses

save_step :
    (c : Bytes) (s : Storage) (w : Bytes)
    → IsCursor c
    → Watermark s w
    → (w' : Bytes) × Advanced (c ∷ []) s (save_stream_cursor c s).1 w w'
save_step [] s w hc mark = absurd (not_nil hc)
save_step (c ∷ cursor) s w hc mark = elim saved.moved [
  | inl e ↦ (
    c ∷ cursor,
    record {
      mark = record { stored = saved.written e; cursor = hc };
      not_back =
          after→not_after (c ∷ cursor) w hc mark.cursor
            (ground (arith, saved.forward e, mark.stored));
      member = mem-cons.1 (Or.inr (mem-cons.1 (Or.inl refl)));
      newest = λ calm. ((saved.calm calm).1, (not_after_refl (c ∷ cursor) hc, tt));
    },
  )
  | inr (same, kept) ↦ (
    w,
    record {
      mark = record { stored = rw same mark.stored; cursor = mark.cursor };
      not_back = not_after_refl w mark.cursor;
      member = mem-cons.1 (Or.inl refl);
      newest = λ calm.
          ((saved.calm calm).1, (ground (arith, kept, (saved.calm calm).0, mark.stored), tt));
    },
  )
]
  where
    saved :
        Saved
          (c ∷ cursor)
          s
          (save_stream_cursor (c ∷ cursor) s).1
          (save_stream_cursor (c ∷ cursor) s).0
    saved = save_stream_cursor-Saved c cursor s hc.valid

member-step :
    (w w₁ w₂ c : Bytes) (cs : List Bytes)
    → Mem w₁ (w ∷ c ∷ [])
    → Mem w₂ (w₁ ∷ cs)
    → Mem w₂ (w ∷ c ∷ cs)
member-step w w₁ w₂ c cs m n =
    Or.elim Mem-prop (mem-cons.0 n)
      (λ e.
        Or.elim Mem-prop (mem-cons.0 m) (λ f. mem-cons.1 (Or.inl (e ∙ f)))
          (λ k. mem-cons.1 (
            Or.inr (
              mem-cons.1 (
                Or.elim (hlevel) (mem-cons.0 k) (λ f. Or.inl (e ∙ f))
                  (λ z. absurd (not-mem-nil z)))))))
      (λ k. mem-cons.1 (Or.inr (mem-cons.1 (Or.inr k))))

save_all-Advanced :
    (cs : List Bytes) (s : Storage) (w : Bytes)
    → All IsCursor cs
    → Watermark s w
    → (w' : Bytes) × Advanced cs s (save_all cs s) w w'
unfolding save_all
save_all-Advanced [] s w h mark = (
  w,
  record {
    mark = mark;
    not_back = not_after_refl w mark.cursor;
    member = mem-cons.1 (Or.inl refl);
    newest = λ calm. (calm, tt);
  },
)
save_all-Advanced (c ∷ cs) s w (hc, hcs) mark =
    let (w₁, one) = save_step c s w hc mark in
    let (w₂, rest) = save_all-Advanced cs (save_stream_cursor c s).1 w₁ hcs one.mark in
    let k₁ = one.mark.cursor in
    let k₂ = rest.mark.cursor in
    (
      w₂,
      record {
        mark = rest.mark;
        not_back = not_after_trans w w₁ w₂ mark.cursor k₁ k₂ one.not_back rest.not_back;
        member = member-step w w₁ w₂ c cs one.member rest.member;
        newest = λ calm.
            let (calm', (old, _)) = one.newest calm in
            let (calm'', news) = rest.newest calm' in
            (calm'', (not_after_trans c w₁ w₂ hc k₁ k₂ old rest.not_back, news));
      },
    )

-- Whichever statements SQLite refuses, after any saves of well-formed cursors the watermark is one
-- of them or the old one, and the old one is not after it.
pub watermark_never_back :
    (cs : List Bytes) (s : Storage) (w : Bytes)
    → All IsCursor cs
    → IsCursor w
    → stored_cursor s ≡ some w
    → (w' : Bytes) × (stored_cursor (save_all cs s) ≡ some w')
      × Mem w' (w ∷ cs)
      × (cursor_after w w' ≡ false)
watermark_never_back cs s w h k e =
    let (w', a) = save_all-Advanced cs s w h (record { stored = e; cursor = k }) in
    (w', a.mark.stored, a.member, a.not_back)

-- Where SQLite refuses nothing, the watermark is then the newest of the old and the saved cursors:
-- none of them is after it, whatever the order of the saves.
pub watermark_newest :
    (cs : List Bytes) (s : Storage) (w : Bytes)
    → All IsCursor cs
    → IsCursor w
    → stored_cursor s ≡ some w
    → s.faults ≡ []
    → (w' : Bytes) × (stored_cursor (save_all cs s) ≡ some w')
      × Mem w' (w ∷ cs)
      × All (λ c. cursor_after c w' ≡ false) (w ∷ cs)
watermark_newest cs s w h k e calm =
    let (w', a) = save_all-Advanced cs s w h (record { stored = e; cursor = k }) in
    (w', a.mark.stored, a.member, (a.not_back, (a.newest calm).1))
