-- ===== src/Client/Cells/Width.antt =====
-- How wide the texts of the table are, in characters.
use consensus_lab.Base.{
  ℕ, ◌-◌, ◌≤◌, ◌<◌, ◌≡◌, refl, zero, suc, String, str_eq, Bool, true, false, if◌then◌else◌, leb,
  arith, leb→le, ◌&&◌,
}
use Prim.Native.String.count
use Prim.Native.String.len
use Prim.Native.String.slice
use Prim.Native.String.{count, len, slice, fits, ◌∷◌ as cons, [] as nil}
use Prim.Native.Nat.{compare, Ordering}
use Prim.Native.Char.{Char, len_utf8}
use text.Mathlib.TextLemmas.{length-append}
use text.Mathlib.TextPositions.{len_utf8-pos}
use consensus_lab.Client.{shorten, short_label, header_label}
use consensus_lab.Client.Cells.{spaces, pad_right, pad_left}

count-spaces : (n : ℕ) → count (spaces n) ≡ n
unfolding spaces
count-spaces zero = refl
count-spaces (suc n) = omega (arith, length-append " " (spaces n), count-spaces n)

pub count-pad_right : (width : ℕ) (s : String) → count s ≤ width → count (pad_right width s) ≡ width
unfolding pad_right
count-pad_right width s h =
    omega (arith, length-append s (spaces (width - count s)), count-spaces (width - count s))

pub count-pad_left : (width : ℕ) (s : String) → count s ≤ width → count (pad_left width s) ≡ width
unfolding pad_left
count-pad_left width s h =
    omega (arith, length-append (spaces (width - count s)) s, count-spaces (width - count s))

count-len : (s : String) → count s ≤ len s
count-len nil = omega arith
count-len (cons c s) = omega (arith, count.cons c s, len.cons c s, len_utf8-pos c, count-len s)

beyond_gt : (k b : ℕ) → leb k b ≡ false → compare k b ≡ Ordering.gt
beyond_gt k b e = ground arith

fits_count :
    (o : Ordering) (c : Char) (s : String) (b k : ℕ)
    → (leb k b ≡ false → o ≡ Ordering.gt)
    → count s ≤ b - k
    → 0 < k
    → count (fits o c s) ≤ b
fits_count Ordering.gt c s b k fitting rest pos = omega arith
fits_count Ordering.lt c s b k fitting rest pos = ground (arith, count.cons c s, leb→le k b)
fits_count Ordering.eq c s b k fitting rest pos = ground (arith, count.cons c s, leb→le k b)

count-slice : (s : String) (b : ℕ) → count (slice s 0 b) ≤ b
count-slice nil b = rw (slice.nil 0 b) (omega arith)
count-slice (cons c s) b =
    let (k, size) = len_utf8-pos c in
    rw (slice.cons-zero c s b) (
      fits_count (compare (len_utf8 c) b) c (slice s 0 (b - len_utf8 c)) b (len_utf8 c)
        (beyond_gt (len_utf8 c) b) (count-slice s (b - len_utf8 c)) (omega arith))

pub count-shorten : (s : String) (n : ℕ) → 0 < n → count (shorten s n) ≤ n
unfolding shorten
count-shorten s n h = ground (
  arith,
  count-len s,
  count-slice s n,
  count-slice s (n - 3),
  length-append (slice s 0 (n - 3)) "...",
)

-- one `case` of the switch, with its guard
guarded_width :
    (here wide : Bool) (width : ℕ) (short rest : String)
    → (wide ≡ true → count short ≤ width)
    → count rest ≤ width
    → count (if here && wide then short else rest) ≤ width
guarded_width true true width short rest own other = own refl
guarded_width true false width short rest own other = other
guarded_width false wide width short rest own other = other

count-short_label : (label : String) (width : ℕ) → count (short_label label width) ≤ width
unfolding short_label
count-short_label label width =
    guarded_width (str_eq label "LEADER") (leb 3 width) width "LDR" _ (leb→le 3 width) (
      guarded_width (str_eq label "ADDR") (leb 2 width) width "AD" _ (leb→le 2 width) (
        guarded_width (str_eq label "NODE") (leb 2 width) width "ND" _ (leb→le 2 width) (
          guarded_width (str_eq label "ROLE") (leb 2 width) width "RL" _ (leb→le 2 width)
            (count-slice label width))))

pub count-header_label :
    (label : String) (width : ℕ) → 0 < width → count (header_label label width) ≤ width
unfolding header_label
count-header_label label width h = ground (arith, count-len label, count-short_label label width)
