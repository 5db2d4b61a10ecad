-- ===== src/Camera/Options.antt =====
-- The end of a list of options of v4l2test.
use edge_embedded_linux.Common.{
  ℕ, ◌≡◌, refl, ap, ◌∙◌, ◌≤◌, ◌%◌, ◌^◌, List, [], ◌∷◌, Option, none, some, arith,
}
use edge_embedded_linux.Posix.{return, exit, ◌>>=◌}
use edge_embedded_linux.Camera.Setup.{
  Setup, Opt, flag, device, help, framebuffer, format, count, xposition, yposition, clear, other,
  with_number, set_option, set_options,
}

-- What comes of the options: a setup, or an end before anything is opened.
pub data Options (strtol : List ℕ → Option ℕ) (l : List Opt) (s : Setup) : Type 0 where
  set : (setup : Setup) → set_options strtol l s ≡ return setup → Options strtol l s
  ends : (code : ℕ) → code ≤ 1 → set_options strtol l s ≡ exit code → Options strtol l s

options_go_on :
    (strtol : List ℕ → Option ℕ) (o : Opt) (l : List Opt) (s s' : Setup)
    → set_option strtol s o ≡ return s'
    → Options strtol l s'
    → Options strtol (o ∷ l) s
unfolding set_options
options_go_on strtol o l s s' e (set setup h) =
    set setup (ap (λ p. p >>= set_options strtol l) e ∙ h)
options_go_on strtol o l s s' e (ends code le h) =
    ends code le (ap (λ p. p >>= set_options strtol l) e ∙ h)

options_end :
    (strtol : List ℕ → Option ℕ) (o : Opt) (l : List Opt) (s : Setup) (code : ℕ)
    → code ≤ 1
    → set_option strtol s o ≡ exit code
    → Options strtol (o ∷ l) s
unfolding set_options
options_end strtol o l s code le e = ends code le (ap (λ p. p >>= set_options strtol l) e)

number_option :
    (strtol : List ℕ → Option ℕ) (o : Opt) (l : List Opt) (s : Setup) (n : Option ℕ) (f : ℕ → Setup)
    → set_option strtol s o ≡ with_number n f
    → ((s' : Setup) → Options strtol l s')
    → Options strtol (o ∷ l) s
number_option strtol o l s none f e next = options_end strtol o l s 1 (omega arith) e
number_option strtol o l s (some n) f e next =
    options_go_on strtol o l s (f (n % 2 ^ 32)) e (next (f (n % 2 ^ 32)))

pub options_of : (strtol : List ℕ → Option ℕ) (l : List Opt) (s : Setup) → Options strtol l s
unfolding set_options
options_of strtol [] s = set s refl
options_of strtol (flag ∷ l) s = options_go_on strtol flag l s s refl (options_of strtol l s)
options_of strtol (device t ∷ l) s =
    options_go_on strtol (device t) l s _ refl (options_of strtol l _)
options_of strtol (help ∷ l) s = options_end strtol help l s 0 (omega arith) refl
options_of strtol (framebuffer t ∷ l) s =
    options_go_on strtol (framebuffer t) l s _ refl (options_of strtol l _)
options_of strtol (format ∷ l) s = options_go_on strtol format l s _ refl (options_of strtol l _)
options_of strtol (count t ∷ l) s =
    number_option strtol (count t) l s (strtol t) _ refl (options_of strtol l)
options_of strtol (xposition t ∷ l) s =
    number_option strtol (xposition t) l s (strtol t) _ refl (options_of strtol l)
options_of strtol (yposition t ∷ l) s =
    number_option strtol (yposition t) l s (strtol t) _ refl (options_of strtol l)
options_of strtol (clear ∷ l) s = options_go_on strtol clear l s _ refl (options_of strtol l _)
options_of strtol (other c ∷ l) s = options_end strtol (other c) l s 1 (omega arith) refl
