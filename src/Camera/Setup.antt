-- ===== src/Camera/Setup.antt =====
-- The options of v4l2test.
use edge_embedded_linux.Common.{ℕ, ◌+◌, ◌%◌, ◌^◌, List, [], ◌∷◌, Option, none, some}
use edge_embedded_linux.Text.{codes}
use edge_embedded_linux.Posix.{Prog, return, exit, ◌>>=◌}

-- The static variables that the options set.
pub record Setup : Type 0 where
  pub dev_name : List ℕ
  pub fb_name : List ℕ
  pub force_format : ℕ
  pub frame_count : ℕ
  pub xpos : ℕ
  pub ypos : ℕ
  pub clear_screen : ℕ

abbrev pub default_setup : Setup
default_setup = record {
  dev_name = codes "/dev/video0";
  fb_name = codes "/dev/fb0";
  force_format = 0;
  frame_count = 100000;
  xpos = 0;
  ypos = 0;
  clear_screen = 1;
}

-- What getopt_long() finds, one at each call, with optarg.
pub data Opt : Type 0 where
  flag : Opt
  device : (optarg : List ℕ) → Opt
  help : Opt
  framebuffer : (optarg : List ℕ) → Opt
  format : Opt
  count : (optarg : List ℕ) → Opt
  xposition : (optarg : List ℕ) → Opt
  yposition : (optarg : List ℕ) → Opt
  clear : Opt
  other : (c : ℕ) → Opt

-- A number that strtol() could read, `none` where it sets errno. The ints are kept as 32 bits.
abbrev pub with_number : Option ℕ → (ℕ → Setup) → Prog Setup
with_number none f = exit 1
with_number (some n) f = return (f (n % 2 ^ 32))

abbrev pub set_option : (List ℕ → Option ℕ) → Setup → Opt → Prog Setup
set_option strtol s flag = return s
set_option strtol s (device optarg) = return (record s { dev_name = optarg })
set_option strtol s help = exit 0
set_option strtol s (framebuffer optarg) = return (record s { fb_name = optarg })
set_option strtol s format = return (record s { force_format = s.force_format + 1 })
set_option strtol s (count optarg) = with_number (strtol optarg) (λ n. record s { frame_count = n })
set_option strtol s (xposition optarg) = with_number (strtol optarg) (λ n. record s { xpos = n })
set_option strtol s (yposition optarg) = with_number (strtol optarg) (λ n. record s { ypos = n })
set_option strtol s clear = return (record s { clear_screen = 1 })
set_option strtol s (other c) = exit 1

unfoldable pub set_options : (List ℕ → Option ℕ) → List Opt → Setup → Prog Setup
set_options strtol [] s = return s
set_options strtol (o ∷ l) s = do s ← set_option strtol s o; set_options strtol l s
