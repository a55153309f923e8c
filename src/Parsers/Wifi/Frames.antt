-- ===== src/Parsers/Wifi/Frames.antt =====
-- A frame of well-formed elements is read as those elements, in order.
use surveillance_hound.Common.{
  ℕ, zero, suc, ◌<◌, ◌≡◌, refl, false, Option, some, List, [], ◌∷◌, ◌++◌, arith, ltb, length,
  length-append, take-append, drop-append, ◌>>=◌, >>=_same,
}
use surveillance_hound.Parsers.Wifi.{Progress, add_element, parse_elements}

-- An element of an 802.11 frame.
pub record Element : Type 0 where
  pub type : ℕ
  pub value : List ℕ

unfoldable pub frame_elements : List Element → List ℕ
frame_elements [] = []
frame_elements (e ∷ es) = e.type ∷ length e.value ∷ (e.value ++ frame_elements es)

-- The elements one after the other; the first that is refused ends it.
unfoldable pub add_elements : List Element → Progress → Option Progress
add_elements [] p = some p
add_elements (e ∷ es) p = do p' ← add_element e.type e.value p; add_elements es p'

-- Whatever the values are, as many rounds as the frame has bytes, and one more, read exactly the
-- elements that it is made of: the loop ends, and no value is taken for another.
pub parse_elements-frame_elements :
    (es : List Element) (fuel : ℕ) (p : Progress)
    → length (frame_elements es) < fuel
    → parse_elements fuel (frame_elements es) p ≡ add_elements es p
unfolding parse_elements frame_elements add_elements
parse_elements-frame_elements es zero p lt = absurd (omega arith)
parse_elements-frame_elements [] (suc fuel) p lt = refl
parse_elements-frame_elements (e ∷ es) (suc fuel) p lt =
    let fits : ltb (length (e.value ++ frame_elements es)) (length e.value) ≡ false =
      ground (arith, length-append e.value (frame_elements es)) in
    rw
      (
        fits,
        take-append (length e.value) e.value (frame_elements es) refl,
        drop-append (length e.value) e.value (frame_elements es) refl,
      )
      (>>=_same (add_element e.type e.value p) _ _ (λ p' e1.
        parse_elements-frame_elements es fuel p'
          (omega (arith, length-append e.value (frame_elements es)))))
