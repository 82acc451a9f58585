-- ===== src/ClientMain/Results.antt =====
-- What holds of a result of the menus' code, if there is one.
use ipc_project.Base.{
  sym, append_assoc, subst, zero, suc, ◌+◌, ◌<◌, ◌≡◌, refl, Bool, Bool-cases, inl, inr, true, false,
  [], ◌∷◌, ◌++◌, length, take, drop, length-take, length-drop, length-append, leb, leb→le, ok,
  fault, Exec, ◌>>=◌, if◌then◌else◌, arith,
}
use ipc_project.CLib.Strings.{c_string-append}
use ipc_project.CLib.{Block, Text, IsText, strcpy, write, c_string, string_at}

abbrev pub Ensures : {A : Type 0} → Exec A → (A → Type 0) → Type 0
Ensures (ok a) P = P a
Ensures fault P = Unit {0}

pub then_ensures :
    {A B : Type 0} (m : Exec A) (f : A → Exec B) (P : A → Type 0) (R : B → Type 0)
    → Ensures m P
    → ((a : A) → P a → Ensures (f a) R)
    → Ensures (m >>= f) R
then_ensures (ok a) f P R h k = k a h
then_ensures fault f P R h k = tt

pub always : {A : Type 0} (m : Exec A) → Ensures m (λ _. Unit {0})
always (ok a) = tt
always fault = tt

pub if_ensures :
    {A : Type 0} (b : Bool) (x y : Exec A) (P : A → Type 0)
    → (b ≡ true → Ensures x P)
    → (b ≡ false → Ensures y P)
    → Ensures (if b then x else y) P
if_ensures true x y P hx hy = hx refl
if_ensures false x y P hx hy = hy refl

-- A string that is copied into an array is what the array holds, and leaves it its size.
abbrev pub IsCopy : Text → Block → Block → Type 0
IsCopy t dst blk = (length blk ≡ length dst) × (string_at blk 0 ≡ ok t)

pub strcpy-IsCopy : (dst : Block) (t : Text) → IsText t → Ensures (strcpy dst 0 t) (IsCopy t dst)
unfolding strcpy write
strcpy-IsCopy dst t text =
    let bytes : Block = t ++ (0 ∷ []) in
    let rest : Block = drop (0 + length bytes) dst in
    elim (Bool-cases (leb (0 + length bytes) (length dst))) [
      | inl e ↦
          let fits = leb→le _ _ e in
          rw e (
            omega (
              arith,
              length-append (take 0 dst) (bytes ++ rest),
              length-append bytes rest,
              length-drop (0 + length bytes) dst,
              length-take 0 dst (omega arith),
            ),
            subst (λ b. c_string b ≡ ok t) (sym (append_assoc t (0 ∷ []) rest))
                (c_string-append t rest text),
          )
      | inr e ↦ rw e tt
    ]

-- A string ends within its array.
c_string-IsText : (blk : Block) → Ensures (c_string blk) (λ t. IsText t × (length t < length blk))
unfolding c_string
c_string-IsText [] = tt
c_string-IsText (zero ∷ blk) = (tt, omega arith)
c_string-IsText (suc b ∷ blk) =
    then_ensures (c_string blk) (λ rest. ok (suc b ∷ rest))
      (λ t. IsText t × (length t < length blk)) (λ t. IsText t × (length t < suc (length blk)))
      (c_string-IsText blk) λ rest h. ((omega arith, h.0), omega (arith, h.1))

-- A result is what the run is equal to.
pub ensures_eq :
    {A : Type 0} (m : Exec A) (P : A → Type 0) → Ensures m P → Ensures m (λ a. (m ≡ ok a) × P a)
ensures_eq (ok a) P h = (refl, h)
ensures_eq fault P h = tt

pub ensures_of_eq :
    {A : Type 0} (m : Exec A) (a : A) (P : A → Type 0) → m ≡ ok a → P a → Ensures m P
ensures_of_eq m a P e h = rw e h

abbrev pub IsString : Block → Text → Type 0
IsString blk = λ t. (string_at blk 0 ≡ ok t) × (IsText t × (length t < length blk))

pub string_at-IsString : (blk : Block) → Ensures (string_at blk 0) (IsString blk)
string_at-IsString blk =
    ensures_eq (string_at blk 0) (λ t. IsText t × (length t < length blk)) (c_string-IsText blk)
