-- ===== src/Camera/Buffers.antt =====
-- init_device() of v4l2test.
use Prim.Native.Nat.{bit_and}
use edge_embedded_linux.Common.{
  if◌then◌else◌, ℕ, ◌≡◌, refl, sym, subst, ◌*◌, Bool, true, false, List, [], length, some, ◌==◌,
}
use edge_embedded_linux.Posix.{
  query_cap, crop_cap, set_crop, set_format, Reply, value, bytes, failed, Prog, return, exit, ◌>>=◌,
  ◌>>◌, field,
}
use edge_embedded_linux.Posix.Safety.{Safe-bind}
use edge_embedded_linux.Camera.Devices.{
  Video, Screen, cap_video_capture, cap_streaming, xioctl, must_xioctl, init_mmap, crop, need,
  init_device,
}
use edge_embedded_linux.Camera.Protocol.{State, FitsAt, Conforms, after, mapped, devices, Exits}
use edge_embedded_linux.Camera.Rules.{IsSafe, if-IsSafe, xioctl-IsSafe, must_xioctl-IsSafe}
use edge_embedded_linux.Camera.Opening.{base}
use edge_embedded_linux.Camera.Mapping.{pairs, AllHold, made, MadeAll, init_mmap-IsSafe}

module _ (x y n fd : ℕ) (sc : Screen) (var : List ℕ) where
  pub record Ready (v : Video) (s : State) : Type 0 where
    pub same : v.fd ≡ fd
    pub state : s ≡ made fd sc var v.width v.height (length v.buffers) (pairs v.buffers)
    pub hold : AllHold (v.height * v.width * 2) v.buffers
    pub fits : FitsAt x y sc.info v.width v.height

  cropped-IsSafe :
      (s : State)
      → s.cam ≡ some fd
      → IsSafe x y (λ _ s'. s' ≡ s) (xioctl n (set_crop fd) >> return tt) s
  cropped-IsSafe s cam =
      xioctl-IsSafe x y (λ _ s'. s' ≡ s) (set_crop fd) s cam (λ _. return tt) same n
    where
      same : (r : Reply) → Conforms x y s (set_crop fd) r → after s (set_crop fd) r ≡ s
      same (value r) ok = refl
      same (bytes b) ok = refl
      same (failed e) ok = refl

  crop-IsSafe :
      (r : Reply) (s : State) → s.cam ≡ some fd → IsSafe x y (λ _ s'. s' ≡ s) (crop n fd r) s
  crop-IsSafe (failed e) s cam = refl
  crop-IsSafe (bytes b) s cam = cropped-IsSafe s cam
  crop-IsSafe (value r) s cam = choose (r == 0)
    where
      choose :
          (b : Bool)
          → IsSafe x y
              (λ _ s'. s' ≡ s)
              (if b then xioctl n (set_crop fd) >> return tt else return tt)
              s
      choose true = cropped-IsSafe s cam
      choose false = refl

  need-IsSafe :
      {B : Type 0} (Q : B → State → Type 0) (capabilities bit : ℕ) (f : Unit {0} → Prog B)
      (s : State)
      → IsSafe x y Q (f tt) s
      → IsSafe x y Q (need capabilities bit >>= f) s
  need-IsSafe Q capabilities bit f s h =
      if-IsSafe x y Q (bit_and capabilities bit == 0) (exit 1) (return tt) f s (λ _. refl) (λ _. h)

  pub init_device-IsSafe : IsSafe x y Ready (init_device n fd) (base fd sc var)
  unfolding init_device
  init_device-IsSafe =
      must_xioctl-IsSafe x y Ready (query_cap fd) (base fd sc var) refl supported
        (λ r ok. supports []) (λ cap ok. supports cap) n
    where
      formats : Unit {0} → Prog Video
      formats _ = do
        fmt ← must_xioctl n (set_format fd 640 480)
        mapped ← init_mmap n fd
        return (record {
          fd = fd;
          width = field fmt 0;
          height = field fmt 1;
          array = mapped.0;
          buffers = mapped.1;
        })

      crops : Unit {0} → Prog Video
      crops _ = do cropcap ← xioctl n (crop_cap fd); crop n fd cropcap >>= formats

      supported : List ℕ → Prog Video
      supported cap = do
        need (field cap 0) cap_video_capture
        need (field cap 0) cap_streaming >>= crops

      formatted : IsSafe x y Ready (formats tt) (base fd sc var)
      formatted =
          must_xioctl-IsSafe x y Ready (set_format fd 640 480) (base fd sc var) (refl, refl) _
            (λ r ok. absurd ok)
            (λ fmt fits.
              Safe-bind (devices x y) (MadeAll x y n fd sc var (field fmt 0) (field fmt 1)) Ready
                Exits
                (λ mapped. return (record {
                  fd = fd;
                  width = field fmt 0;
                  height = field fmt 1;
                  array = mapped.0;
                  buffers = mapped.1;
                }))
                (init_mmap n fd) (made fd sc var (field fmt 0) (field fmt 1) 0 [])
                (init_mmap-IsSafe x y n fd sc var (field fmt 0) (field fmt 1))
                (λ mapped s m. record { same = refl; state = m.0; hold = m.1; fits = fits }))
            n

      after_crop : (r : Reply) → IsSafe x y Ready (crop n fd r >>= formats) (base fd sc var)
      after_crop r =
          Safe-bind (devices x y) (λ _ s'. s' ≡ base fd sc var) Ready Exits formats (crop n fd r)
            (base fd sc var) (crop-IsSafe r (base fd sc var) refl)
            (λ _ s e. subst (IsSafe x y Ready (formats tt)) (sym e) formatted)

      cropping :
          (r : Reply)
          → Conforms x y (base fd sc var) (crop_cap fd) r
          → IsSafe x y Ready (crop n fd r >>= formats) (after (base fd sc var) (crop_cap fd) r)
      cropping (value r) ok = after_crop (value r)
      cropping (bytes b) ok = after_crop (bytes b)
      cropping (failed e) ok = after_crop (failed e)

      supports : (cap : List ℕ) → IsSafe x y Ready (supported cap) (base fd sc var)
      supports cap =
          need-IsSafe Ready (field cap 0) cap_video_capture
            (λ _. need (field cap 0) cap_streaming >>= crops) (base fd sc var)
            (need-IsSafe Ready (field cap 0) cap_streaming crops (base fd sc var) (
              xioctl-IsSafe x y Ready (crop_cap fd) (base fd sc var) refl
                (λ r. crop n fd r >>= formats) cropping n))
