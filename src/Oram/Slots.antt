-- ===== src/Oram/Slots.antt =====
-- What is checked in to fog/ocall_oram_storage/untrusted/src/lib.rs is checked out again.
use fog.Prelude.{
  ℕ, ◌<◌, ◌≡◌, refl, ◌∙◌, inl, inr, List, [], ◌∷◌, map, ◌==◌, ==→eq, eq→==, Bool-cases, arith,
}
use fog.Prelude.Bytes.{Bytes}
use fog.Prelude.Lists.{All}
use fog.Oram.Untrusted.{put, put_all}

-- Every index is above those after it.
abbrev pub Falls : List ℕ → Type 0
Falls [] = Unit
Falls (x ∷ xs) = All (λ j. j < x) xs × Falls xs

abbrev Item : Type 0
Item = ℕ × Bytes × Bytes

pub put_all-other :
    (value : Item → Bytes) (items : List Item) (f : ℕ → Bytes) (j : ℕ)
    → All (λ k. k < j) (map (λ x. x.0) items)
    → put_all (map (λ x. (x.0, value x)) items) f j ≡ f j
put_all-other value [] f j a = refl
put_all-other value (x ∷ xs) f j (l, a) =
    put_all-other value xs (put f x.0 (value x)) j a ∙ other x.0 (value x) l
  where
    other : (k : ℕ) (v : Bytes) → k < j → put f k v j ≡ f j
    other k v l' = elim (Bool-cases (k == j)) [
      | inl e ↦ absurd (omega (arith, ==→eq k j e, l'))
      | inr e ↦ rw e refl
    ]

-- Each index has its item.
pub put_all-read :
    (items : List Item) (f g : ℕ → Bytes)
    → Falls (map (λ x. x.0) items)
    → map {B = Bytes × Bytes}
        (λ j.
          (put_all (map (λ x. (x.0, x.1)) items) f j, put_all (map (λ x. (x.0, x.2)) items) g j))
        (map (λ x. x.0) items)
      ≡ map {B = Bytes × Bytes} (λ x. (x.1, x.2)) items
put_all-read [] f g h = refl
put_all-read (x ∷ xs) f g (a, h) =
    let here_data = put_all-other (λ y. y.1) xs (put f x.0 x.1) x.0 a in
    let here_meta = put_all-other (λ y. y.2) xs (put g x.0 x.2) x.0 a in
    rw (here_data, here_meta, eq→== x.0 x.0 refl, put_all-read xs (put f x.0 x.1) (put g x.0 x.2) h)
      refl
