-- ===== src/DisplayConfigs/Lists.antt =====
-- HwcDisplayConfigs.cpp: lists that are filtered, and what holds of one or of all of their members.
use android_hardware_nvidia.DisplayConfigs.{filter}
use android_hardware_nvidia.Prelude.{
  All, All-imp, Bool, List, [], false, if_result, inl, inr, refl, true, ◌∷◌, ◌≡◌, ◌⊎◌,
}

pub filter-All :
    {A : Type 0} (P : A → Type 0) (p : A → Bool) (ys : List A)
    → All (λ a. (p a ≡ false) ⊎ P a) ys
    → All P (filter p ys)
filter-All P p [] h = h
filter-All P p (a ∷ bs) (inl e, hs) = rw e (filter-All P p bs hs)
filter-All P p (a ∷ bs) (inr h, hs) =
    if_result {A = List _} (All P) (p a) (h, filter-All P p bs hs) (filter-All P p bs hs)

abbrev pub Any : {A : Type 0} → (A → Type 0) → List A → Type 0
Any P [] = ⊥
Any P (x ∷ xs) = P x ⊎ Any P xs

pub All-zip :
    {A : Type 0} (P Q : A → Type 0) (xs : List A) → All P xs → All Q xs → All (λ x. P x × Q x) xs
All-zip P Q [] h l = tt
All-zip P Q (x ∷ xs) (h, hs) (l, ls) = ((h, l), All-zip P Q xs hs ls)

pub All_of : {A : Type 0} (P : A → Type 0) (xs : List A) → ((x : A) → P x) → All P xs
All_of P [] f = tt
All_of P (x ∷ xs) f = (f x, All_of P xs f)

pub All-Any :
    {A : Type 0} (P Q R : A → Type 0) (xs : List A)
    → ((x : A) → P x → Q x → R x)
    → All P xs
    → Any Q xs
    → (x : A) × R x
All-Any P Q R [] f h a = elim a [ ]
All-Any P Q R (x ∷ xs) f (h, hs) (inl q) = (x, f x h q)
All-Any P Q R (x ∷ xs) f (h, hs) (inr a) = All-Any P Q R xs f hs a

pub filter-Any :
    {A : Type 0} (Q : A → Type 0) (p : A → Bool) (xs : List A)
    → Any (λ x. (p x ≡ true) × Q x) xs
    → Any Q (filter p xs)
filter-Any Q p [] a = elim a [ ]
filter-Any Q p (x ∷ xs) (inl (e, q)) = rw e (inl q)
filter-Any Q p (x ∷ xs) (inr a) =
    if_result {A = List _} (Any Q) (p x) (inr (filter-Any Q p xs a)) (filter-Any Q p xs a)

pub Any-imp :
    {A : Type 0} (P Q : A → Type 0) (xs : List A) → ((x : A) → P x → Q x) → Any P xs → Any Q xs
Any-imp P Q [] f a = a
Any-imp P Q (x ∷ xs) f (inl h) = inl (f x h)
Any-imp P Q (x ∷ xs) f (inr a) = inr (Any-imp P Q xs f a)

pub members : {A : Type 0} (xs : List A) → All (λ x. Any (λ y. y ≡ x) xs) xs
members [] = tt
members (x ∷ xs) = (
  inl refl,
  All-imp (λ z. Any (λ y. y ≡ z) xs) (λ z. Any (λ y. y ≡ z) (x ∷ xs)) xs (λ z a. inr a)
      (members xs),
)
