-- ===== src/Bridge/Decompress/Session.antt =====
-- A session of the plugin: `open`, then parts in any number and of any size, then `close`.
use mathlib.Core.Path.{subst}
use mathlib.Core.List.{append-nil}
use pyhdiff.Base.{
  ℕ, ◌+◌, ◌-◌, ◌≤◌, ◌≡◌, ◌≢◌, refl, true, false, ◌&&◌, [], Bytes, ◌++◌, length, length-append, take,
  drop, leb, arith,
}
use pyhdiff.Status.{payload_max, hdiff_window_log_max, status_invalid}
use pyhdiff.Bridge.Throw.{diverges, done, done_through, done-injective, require, require_ok}
use pyhdiff.Bridge.Zstd.{Decoder, zcheck}
use pyhdiff.Bridge.Apply.{created}
use pyhdiff.Bridge.Decompress.{Plugin, open_plugin, decompress_part, close}
use pyhdiff.Bridge.Decompress.View.{IsValid, view, Feeds, fed, Feeds-trans}
use pyhdiff.Bridge.Decompress.Parts.{decompress_part_lem, decompress_part-ne-diverges}
use pyhdiff.Bridge.Decompress.Close.{close-true, close-ne-diverges}

module _ (Z : Decoder) where
  open Z use {Ctx}

  -- The states that HDiffPatch reaches from `p`, and what the parts have written on the way.
  pub data Session (p : Plugin Ctx) : Bytes → Plugin Ctx → Type 0 where
    opened : Session p [] p
    part :
        {out more : Bytes} {q r : Plugin Ctx} (size : ℕ)
        → Session p out q
        → decompress_part Z size q ≡ done (r, more)
        → Session p (out ++ more) r

  -- What holds of each state of a session.
  pub record Reached (p : Plugin Ctx) (out : Bytes) (q : Plugin Ctx) : Type 0 where
    pub valid : IsValid q
    pub counted : length out + q.remaining ≡ p.remaining
    pub feeds : Feeds Z (view p) out (view q)

  -- In each state that a session reaches the positions are in their ranges, the output so far and
  -- what remains make up the size, and the output is what the decoder wrote so far.
  pub Session-Reached :
      {p q : Plugin Ctx} {out : Bytes} → IsValid p → Session p out q → Reached p out q
  Session-Reached {p} v opened = record { valid = v; counted = omega arith; feeds = fed (view p) }
  Session-Reached v (part {out} {more} {q} {r} size before e) =
      let s = Session-Reached v before in
      let d = decompress_part_lem Z size q s.valid e in
      record {
        valid = d.valid;
        counted = omega (arith, s.counted, d.taken, d.full, length-append out more);
        feeds = Feeds-trans Z s.feeds d.feeds;
      }

  -- What `open` has checked, and the state it leaves.
  pub record Opened (size : ℕ) (source : Bytes) (begin end : ℕ) (p : Plugin Ctx) : Type 0 where
    pub valid : IsValid p
    pub bounded : size ≤ payload_max
    pub order : begin ≤ end
    pub end-le : end ≤ length source
    pub same_size : p.remaining ≡ size
    pub fresh :
        view p
        ≡ record { ctx = p.ctx; rest = take (end - begin) (drop begin source); finished = false }

  pub open_plugin_lem :
      (size : ℕ) (source : Bytes) (begin end : ℕ) {p : Plugin Ctx}
      → open_plugin Z size source begin end ≡ done p
      → Opened size source begin end p
  unfolding open_plugin
  open_plugin_lem size source begin end e =
      let (_, o, e₁) =
        done_through
          (require (leb begin end && leb end (length source) && leb size payload_max)
            status_invalid)
          _ e in
      let (c, _, e₂) = done_through (created Z.create) _ e₁ in
      let (_, _, e₃) =
        done_through (zcheck Z.memory_allocation (Z.set_window_log_max c hdiff_window_log_max).1) _
          e₂ in
      let (order, inside, small) = all_three begin end (length source) size (require_ok _ _ o) in
      subst (Opened size source begin end) (done-injective e₃) (record {
        valid = record {
          source_order = order;
          source_end = inside;
          input_order = omega arith;
          input_size = omega arith;
        };
        bounded = small;
        order = order;
        end-le = inside;
        same_size = refl;
        fresh = refl;
      })
    where
      all_three :
          (a b n s : ℕ)
          → (leb a b && leb b n && leb s payload_max) ≡ true
          → (a ≤ b) × (b ≤ n) × (s ≤ payload_max)
      all_three a b n s h = ground arith

  -- If HDiffPatch opens the plugin on a part of the diff, reads parts and closes it with success,
  -- then the parts make up the stated size exactly, and are what the decoder wrote for the whole
  -- part of the diff, which ends with the end of a frame.
  pub Session-close :
      (size : ℕ) (source : Bytes) (begin end : ℕ) {p q : Plugin Ctx} {out : Bytes}
      → open_plugin Z size source begin end ≡ done p
      → Session p out q
      → close Z q ≡ done true
      → (length out ≡ size)
        × ((c : Ctx) × Feeds Z
              (record {
                ctx = p.ctx;
                rest = take (end - begin) (drop begin source);
                finished = false;
              })
              out
              (record { ctx = c; rest = []; finished = true }))
  Session-close size source begin end {p} {q} {out} e s x =
      let o = open_plugin_lem size source begin end e in
      let r = Session-Reached o.valid s in
      let (none', (c, drained)) = close-true Z q r.valid x in
      let whole = Feeds-trans Z r.feeds drained in
      (omega (arith, r.counted, o.same_size), (c, rw (o.fresh, append-nil out) at whole))

  -- In each state that a session reaches, a further part of any size and a close end.
  pub Session-ends :
      {p q : Plugin Ctx} {out : Bytes}
      → IsValid p
      → Session p out q
      → ((size : ℕ) → decompress_part Z size q ≢ diverges) × (close Z q ≢ diverges)
  Session-ends {q = q} v s =
      let r = Session-Reached v s in
      (λ size. decompress_part-ne-diverges Z size q r.valid, close-ne-diverges Z q r.valid)
