-- ===== src/Runtime.antt =====
-- What the program takes from outside its own files: float arithmetic, the case tables of `str`,
-- compiled regular expressions, hashing, JSON, the clock's text format and `git log`.
use netflix_flaky_test_triag.Base.{ℕ, ◌≡◌, Bool, true, Option, Text, List}

-- A JSON value as `json.loads` returns it; floats are those of the program.
mutual
  pub data Json (F : Type 0) : Type 0 where
    null : Json F
    bool : Bool → Json F
    num : F → Json F
    str : Text → Json F
    arr : Items F → Json F
    obj : Fields F → Json F

  pub data Items (F : Type 0) : Type 0 where
    nil : Items F
    cons : Json F → Items F → Items F

  pub data Fields (F : Type 0) : Type 0 where
    end : Fields F
    field : Text → Json F → Fields F → Fields F

-- What reading a file or running a program gives: a value or the text of an exception.
pub data Outside (A : Type 0) : Type 0 where
  got : A → Outside A
  raised : Text → Outside A

-- Python's `int`, with `negsuc n` for `-(n + 1)`.
pub data ℤ : Type 0 where
  pos negsuc : ℕ → ℤ

-- One record stands for the interpreter and the tools it runs, over the float type `F`.
pub record Runtime (F : Type 0) : Type 0 where
  pub of_nat : ℕ → F
  pub add : F → F → F
  pub sub : F → F → F
  pub mul : F → F → F
  pub div : F → F → F
  pub le : F → F → Bool
  pub lt : F → F → Bool
  -- `round(x, digits)`
  pub round : F → ℕ → F
  -- `f"{x:.1%}"`
  pub percent : F → Text
  pub lower : Text → Text
  pub upper : Text → Text
  -- the matches of `_PATH_TOKEN.finditer`
  pub path_tokens : Text → List Text
  pub sha256 : Text → Text
  pub json_loads : Text → Option (Json F)
  -- `datetime.isoformat` and `datetime.fromisoformat`, over microseconds in UTC
  pub iso_format : ℕ → Text
  pub from_iso_format : Text → Option ℕ
  -- `git log -1 --format=%an -- path`: the exit code and output, if it ran
  pub git_log : Text → Option (ℕ × Text)
  -- `float(text)` and `int(text)`, none for a `ValueError`
  pub float_of : Text → Option F
  pub int_of : Text → Option ℤ
  -- `==` of floats, false for a NaN
  pub eq : F → F → Bool
  -- `round(x)` of a float that is not negative, none for the `OverflowError` of an infinity
  pub round_to_int : F → Option ℕ
  -- the value of a decimal digit of Unicode
  pub digit_of : ℕ → Option ℕ

-- What IEEE 754 arithmetic guarantees on numbers that do not overflow: an order, multiplication
-- and addition that respect it, and a complement `1 - a` whose rounding stays in the interval.
pub record IsOrdered {F : Type 0} (rt : Runtime F) : Type 0 where
  pub le_refl : (a : F) → rt.le a a ≡ true
  pub le_trans : (a b c : F) → rt.le a b ≡ true → rt.le b c ≡ true → rt.le a c ≡ true
  pub zero-le-one : rt.le (rt.of_nat 0) (rt.of_nat 1) ≡ true
  pub mul_mono :
      (c a b : F)
      → rt.le (rt.of_nat 0) c ≡ true
      → rt.le a b ≡ true
      → rt.le (rt.mul c a) (rt.mul c b) ≡ true
  pub add_mono :
      (a b c d : F) → rt.le a b ≡ true → rt.le c d ≡ true → rt.le (rt.add a c) (rt.add b d) ≡ true
  pub sub_nonneg :
      (a : F) → rt.le a (rt.of_nat 1) ≡ true → rt.le (rt.of_nat 0) (rt.sub (rt.of_nat 1) a) ≡ true
  -- `a * 1 + (1 - a) * 1 <= 1`
  pub complement_le_one :
      (a : F)
      → rt.le (rt.of_nat 0) a ≡ true
      → rt.le a (rt.of_nat 1) ≡ true
      → rt.le
          (rt.add (rt.mul a (rt.of_nat 1)) (rt.mul (rt.sub (rt.of_nat 1) a) (rt.of_nat 1)))
          (rt.of_nat 1)
        ≡ true
  -- `0 <= a * 0 + (1 - a) * 0`
  pub zero-le-complement :
      (a : F)
      → rt.le (rt.of_nat 0) a ≡ true
      → rt.le a (rt.of_nat 1) ≡ true
      → rt.le
          (rt.of_nat 0)
          (rt.add (rt.mul a (rt.of_nat 0)) (rt.mul (rt.sub (rt.of_nat 1) a) (rt.of_nat 0)))
        ≡ true
