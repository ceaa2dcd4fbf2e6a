-- ===== src/Package/Laws.antt =====
-- Package names and directories.
use rsocket_rpc_kotlin.Base.{
  ℕ, Bytes, codes, false, List, [], ◌∷◌, ◌++◌, Option, none, some, ◌==◌, ◌≡◌, ◌≢◌, refl, sym, ap,
  ap₂, ◌∙◌, All, append_assoc, arith, length, take, Lacks, Bool-cases, inl, inr, if◌then◌else◌,
}
use rsocket_rpc_kotlin.Split.{split_fast, split}
use rsocket_rpc_kotlin.Split.Fast.{IsToken}
use rsocket_rpc_kotlin.Descriptor.{FileDescriptor, Protobuf}
use rsocket_rpc_kotlin.Package.{
  find_last_of, up_to_last_dot, service_kotlin_package, dots_to_slashes, kotlin_package_to_dir,
}

test_dir : kotlin_package_to_dir (codes "io.rsocket") ≡ codes "io/rsocket/"
unfolding kotlin_package_to_dir
test_dir = refl

test_package : up_to_last_dot (codes "io.rsocket.Example") ≡ codes "io.rsocket"
unfolding up_to_last_dot
test_package = refl

find_last_of-Lacks : (c : ℕ) (s : Bytes) → Lacks c s → find_last_of c s ≡ none
unfolding find_last_of
find_last_of-Lacks c [] h = refl
find_last_of-Lacks c (x ∷ s) (hx, hs) = ground (arith, find_last_of-Lacks c s hs)

find_last_of-append :
    (c : ℕ) (p s : Bytes) → Lacks c s → find_last_of c (p ++ c ∷ s) ≡ some (length p)
unfolding find_last_of
find_last_of-append c [] s h = ground (arith, find_last_of-Lacks c s h)
find_last_of-append c (x ∷ p) s h = ground (arith, find_last_of-append c p s h)

take-append : (p s : Bytes) → take (length p) (p ++ s) ≡ p
take-append [] s = refl
take-append (x ∷ p) s = ap (λ t. x ∷ t) (take-append p s)

-- Where the name of the file's Java class is a package, a dot and a simple name, the services'
-- package is that package.
pub service_kotlin_package_lem :
    (pb : Protobuf) (file : FileDescriptor) (package_name simple : Bytes)
    → Lacks b'.' simple
    → pb.file_class_name file ≡ package_name ++ b'.' ∷ simple
    → service_kotlin_package pb file ≡ package_name
unfolding service_kotlin_package
service_kotlin_package_lem pb file p simple h e =
    rw e (rw (find_last_of-append b'.' p simple h, up_to_last_dot) (take-append p _))

-- Where that name has no dot, it is empty.
service_kotlin_package-nil :
    (pb : Protobuf) (file : FileDescriptor)
    → Lacks b'.' (pb.file_class_name file)
    → service_kotlin_package pb file ≡ []
unfolding service_kotlin_package
service_kotlin_package-nil pb file h = rw (find_last_of-Lacks b'.' _ h, up_to_last_dot)

not_equal : {x y : ℕ} → x ≢ y → (x == y) ≡ false
not_equal h = ground arith

-- The parts of a directory are those of the package.
split_fast-dots_to_slashes :
    (s : Bytes) (mode : Option Bytes) (result : List Bytes)
    → Lacks b'/' s
    → split_fast b'/' (dots_to_slashes s) mode result ≡ split_fast b'.' s mode result
unfolding split_fast dots_to_slashes
split_fast-dots_to_slashes [] none result h = refl
split_fast-dots_to_slashes [] (some cur) result h = refl
split_fast-dots_to_slashes (x ∷ s) none result (hx, hs) = elim (Bool-cases (x == b'.')) [
  | inl e ↦ rw e (split_fast-dots_to_slashes s none result hs)
  | inr e ↦ rw (e, not_equal hx) (split_fast-dots_to_slashes s (some (x ∷ [])) result hs)
]
split_fast-dots_to_slashes (x ∷ s) (some cur) result (hx, hs) = elim (Bool-cases (x == b'.')) [
  | inl e ↦ rw e (split_fast-dots_to_slashes s none (result ++ cur ∷ []) hs)
  | inr e ↦ rw (e, not_equal hx) (split_fast-dots_to_slashes s (some (cur ++ x ∷ [])) result hs)
]

-- A slash at the end adds no part.
split_fast-slash :
    (c : ℕ) (s : Bytes) (mode : Option Bytes) (result : List Bytes)
    → split_fast c (s ++ c ∷ []) mode result ≡ split_fast c s mode result
unfolding split_fast
split_fast-slash c [] none result = ground arith
split_fast-slash c [] (some cur) result = ground arith
split_fast-slash c (x ∷ s) none result = split_fast-slash c s _ _
split_fast-slash c (x ∷ s) (some cur) result = split_fast-slash c s _ _

dots_to_slashes-cons :
    (c : ℕ) (s : Bytes) → kotlin_package_to_dir (c ∷ s) ≡ dots_to_slashes (c ∷ s) ++ b'/' ∷ []
unfolding kotlin_package_to_dir
dots_to_slashes-cons c s = refl

-- For a package without slashes, the directory's parts between slashes are the package's parts
-- between dots.
split-kotlin_package_to_dir :
    (package_name : Bytes)
    → Lacks b'/' package_name
    → split (kotlin_package_to_dir package_name) (codes "/") ≡ split package_name (codes ".")
unfolding split
split-kotlin_package_to_dir [] h = unfold kotlin_package_to_dir in refl
split-kotlin_package_to_dir (c ∷ s) h = ap some (
    ap (λ t. split_fast b'/' t none []) (dots_to_slashes-cons c s)
    ∙ (split_fast-slash b'/' (dots_to_slashes (c ∷ s)) none []
        ∙ split_fast-dots_to_slashes (c ∷ s) none [] h))

-- The parts, each with a byte behind it.
abbrev pub each_with : ℕ → List Bytes → Bytes
each_with c [] = []
each_with c (part ∷ parts) = part ++ c ∷ each_with c parts

dots_to_slashes-append :
    (s t : Bytes) → dots_to_slashes (s ++ t) ≡ dots_to_slashes s ++ dots_to_slashes t
unfolding dots_to_slashes
dots_to_slashes-append [] t = refl
dots_to_slashes-append (c ∷ s) t =
    ap (λ l. (if c == b'.' then b'/' else c) ∷ l) (dots_to_slashes-append s t)

dots_to_slashes-Lacks : (s : Bytes) → Lacks b'.' s → dots_to_slashes s ≡ s
unfolding dots_to_slashes
dots_to_slashes-Lacks [] h = refl
dots_to_slashes-Lacks (c ∷ s) (h, hs) = ground (arith, dots_to_slashes-Lacks s hs)

dots_to_slashes-each_with :
    (parts : List Bytes)
    → All (IsToken b'.') parts
    → dots_to_slashes (each_with b'.' parts) ≡ each_with b'/' parts
unfolding dots_to_slashes
dots_to_slashes-each_with [] h = refl
dots_to_slashes-each_with (part ∷ parts) (h, hs) =
    dots_to_slashes-append part (b'.' ∷ each_with b'.' parts)
    ∙ ap₂ (λ s t. s ++ b'/' ∷ t) (dots_to_slashes-Lacks part h.1)
        (dots_to_slashes-each_with parts hs)

-- The parts without the last dot.
abbrev dotted : Bytes → List Bytes → Bytes
dotted part [] = part
dotted part (next ∷ parts) = part ++ b'.' ∷ dotted next parts

each_with-dotted :
    (part : Bytes) (parts : List Bytes)
    → each_with b'.' (part ∷ parts) ≡ dotted part parts ++ b'.' ∷ []
each_with-dotted part [] = refl
each_with-dotted part (next ∷ parts) =
    ap (λ s. part ++ b'.' ∷ s) (each_with-dotted next parts)
    ∙ sym (append_assoc part (b'.' ∷ dotted next parts) (b'.' ∷ []))

dir_of_nonempty : (s : Bytes) → s ≢ [] → kotlin_package_to_dir s ≡ dots_to_slashes (s ++ b'.' ∷ [])
dir_of_nonempty [] h = absurd (h refl)
dir_of_nonempty (c ∷ s) h =
    dots_to_slashes-cons c s
    ∙ sym (dots_to_slashes-append (c ∷ s) (b'.' ∷ []) ∙ unfold dots_to_slashes in refl)

dotted-ne-nil : (part : Bytes) (parts : List Bytes) → part ≢ [] → dotted part parts ≢ []
dotted-ne-nil [] parts h = absurd (h refl)
dotted-ne-nil (c ∷ part) [] h = h
dotted-ne-nil (c ∷ part) (next ∷ parts) h = λ e. absurd (cc)

-- The directory of a file by the name of its Java class.
pub kotlin_package_to_dir-service_kotlin_package :
    (pb : Protobuf) (file : FileDescriptor) (parts : List Bytes) (simple : Bytes)
    → Lacks b'.' simple
    → All (IsToken b'.') parts
    → pb.file_class_name file ≡ each_with b'.' parts ++ simple
    → kotlin_package_to_dir (service_kotlin_package pb file) ≡ each_with b'/' parts
kotlin_package_to_dir-service_kotlin_package pb file [] simple hs hp e =
    ap kotlin_package_to_dir (service_kotlin_package-nil pb file (rw e hs))
    ∙ (unfold kotlin_package_to_dir in refl)
kotlin_package_to_dir-service_kotlin_package pb file (part ∷ parts) simple hs hp e =
    let p = dotted part parts in
    ap kotlin_package_to_dir (
      service_kotlin_package_lem pb file p simple hs (
        e
        ∙ (ap (λ s. s ++ simple) (each_with-dotted part parts)
            ∙ append_assoc p (b'.' ∷ []) simple)))
    ∙ (dir_of_nonempty p (dotted-ne-nil part parts hp.0.0)
        ∙ (ap dots_to_slashes (sym (each_with-dotted part parts))
            ∙ dots_to_slashes-each_with (part ∷ parts) hp))
