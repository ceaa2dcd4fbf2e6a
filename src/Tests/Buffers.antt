-- ===== src/Tests/Buffers.antt =====
-- Buffers of bytes with the documented behaviour: what is read and what is not as two lists, strings by
-- their bytes.
use rsocket_rpc_kotlin.Base.{
  ℕ, ◌+◌, ◌≤◌, ◌<◌, Bytes, true, false, List, [], ◌∷◌, ◌++◌, ◌≡◌, refl, sym, ap, ap₂, ◌∙◌, arith,
  length, drop, take, length-append, append_assoc, if◌then◌else◌, ◌==◌, Bool-cases, inl, inr, ◌⊎◌,
}
use rsocket_rpc_kotlin.Runtime.Common.{Result, ok, threw, ◌>>=◌, ltb, ◌*◌, ◌/◌, ◌%◌, ◌^◌}
use rsocket_rpc_kotlin.Runtime.Netty.{Netty, Documented, short_bytes_of, unread}
use rsocket_rpc_kotlin.Plugin.{bytes_eq}
use rsocket_rpc_kotlin.Runtime.Metadata.Frame.{length-drop}

pub data Failure : Type 0 where
  larger_than_bits : ℕ → ℕ → Failure
  index_out_of_bounds : Failure
  missing : Bytes → Failure

pub record Buffer : Type 0 where
  pub done : Bytes
  pub rest : Bytes

abbrev content : Buffer → Bytes
content b = b.done ++ b.rest

abbrev append : Buffer → Bytes → Buffer
append b bytes = record { done = b.done; rest = b.rest ++ bytes }

abbrev region : ℕ → ℕ → Bytes → Result Failure Bytes
region index size bytes =
    if ltb (length (drop index bytes)) size
    then threw index_out_of_bounds
    else ok (take size (drop index bytes))

abbrev first_short : Bytes → Result Failure ℕ
first_short [] = threw index_out_of_bounds
first_short (x ∷ []) = threw index_out_of_bounds
first_short (x ∷ y ∷ bytes) = ok (x * 256 + y)

abbrev read_short : Buffer → Result Failure (ℕ × Buffer)
read_short b = elim b.rest [
  | [] ↦ threw index_out_of_bounds
  | x ∷ bytes ↦ elim bytes [
    | [] ↦ threw index_out_of_bounds
    | y ∷ bytes' ↦ ok (x * 256 + y, record { done = b.done ++ (x ∷ y ∷ []); rest = bytes' })
  ]
]

abbrev read_text : Buffer → ℕ → Result Failure (Bytes × Buffer)
read_text b size =
    if ltb (length b.rest) size
    then threw index_out_of_bounds
    else (ok
        (take size b.rest, record { done = b.done ++ take size b.rest; rest = drop size b.rest }))

abbrev pub buffers : Netty
buffers = record {
  Text = Bytes;
  same_text = bytes_eq;
  utf8 = λ s. s;
  text = λ s. s;
  Throwable = Failure;
  larger_than_bits = λ i bits. larger_than_bits i bits;
  ByteBuf = Buffer;
  content = content;
  reader_index = λ b. length b.done;
  capacity = λ b. 256;
  grows = λ b. true;
  empty_buffer = record { done = []; rest = [] };
  buffer = record { done = []; rest = [] };
  utf8_bytes = length;
  reserve_and_write_utf8 = λ b s reserve.
      if ltb 256 (length (content b) + length s)
      then (if ltb reserve (length s) then threw index_out_of_bounds else ok (append b s))
      else ok (append b s);
  write_short = λ b i. append b (short_bytes_of i);
  write_region = λ b s index size. append b (take size (drop index (content s)));
  read_all = λ b. record { done = content b; rest = [] };
  readable_bytes = λ b. length b.rest;
  get_short = λ b index. first_short (drop index (content b));
  to_text = λ b index size. region index size (content b);
  slice = λ b index size.
      region index size (content b) >>= λ bytes. ok (record { done = []; rest = bytes });
  read_short = read_short;
  read_text = read_text;
}

drop-append {ℓ} : {A : Type ℓ} (xs ys : List A) → drop (length xs) (xs ++ ys) ≡ ys
drop-append [] ys = refl
drop-append (x ∷ xs) ys = drop-append xs ys

take-append {ℓ} : {A : Type ℓ} (xs ys : List A) → take (length xs) (xs ++ ys) ≡ xs
take-append [] ys = refl
take-append (x ∷ xs) ys = ap (λ l. x ∷ l) (take-append xs ys)

short_of_bytes : (i : ℕ) → i < 2 ^ 16 → i / 256 % 256 * 256 + i % 256 ≡ i
short_of_bytes i h = omega arith

not_shorter : (a b : ℕ) → b ≤ a → ltb a b ≡ false
not_shorter a b h = ground arith

region_lem :
    (bytes before middle after : Bytes)
    → bytes ≡ before ++ (middle ++ after)
    → region (length before) (length middle) bytes ≡ ok middle
region_lem bytes before middle after c =
    rw
      (
        c,
        drop-append before (middle ++ after),
        take-append middle after,
        not_shorter (length (middle ++ after)) (length middle)
            (omega (arith, length-append middle after)),
      )
      refl

unread_rest : (b : Buffer) → unread buffers b ≡ b.rest
unread_rest b = drop-append b.done b.rest

bytes_eq_sound : (s t : Bytes) → bytes_eq s t ≡ true → s ≡ t
unfolding bytes_eq
bytes_eq_sound [] [] h = refl
bytes_eq_sound [] (y ∷ t) h = absurd (cc)
bytes_eq_sound (x ∷ s) [] h = absurd (cc)
bytes_eq_sound (x ∷ s) (y ∷ t) h =
    ap₂ (λ a l. a ∷ l) (ground arith) (bytes_eq_sound s t (ground arith))

same : (x : ℕ) → (x == x) ≡ true
same x = ground arith

bytes_eq_complete : (s : Bytes) → bytes_eq s s ≡ true
unfolding bytes_eq
bytes_eq_complete [] = refl
bytes_eq_complete (x ∷ s) = rw (same x, bytes_eq_complete s) refl

read_short_lem :
    (b : Buffer) (after : Bytes) (i : ℕ)
    → b.rest ≡ short_bytes_of i ++ after
    → i < 2 ^ 16
    → read_short b ≡ ok (i, record { done = b.done ++ short_bytes_of i; rest = after })
read_short_lem b after i e h = rw e (
    ap (λ k. ok (k, record { done = b.done ++ short_bytes_of i; rest = after }))
      (short_of_bytes i h))

read_text_lem :
    (b : Buffer) (middle after : Bytes)
    → b.rest ≡ middle ++ after
    → read_text b (length middle) ≡ ok (middle, record { done = b.done ++ middle; rest = after })
read_text_lem b middle after e =
    rw
      (
        e,
        take-append middle after,
        drop-append middle after,
        not_shorter (length (middle ++ after)) (length middle)
            (omega (arith, length-append middle after)),
      )
      refl

-- What is left to be read behind a call.
abbrev left {ℓ} : {A : Type ℓ} → Result Failure (A × Buffer) → Bytes
left (ok (a, b)) = b.rest
left (threw t) = []

short_two :
    (done rest : Bytes) (b' : Buffer) (i : ℕ)
    → read_short (record { done = done; rest = rest }) ≡ ok (i, b')
    → length rest ≡ length b'.rest + 2
short_two done [] b' i e = absurd (cc)
short_two done (x ∷ []) b' i e = absurd (cc)
short_two done (x ∷ y ∷ rest) b' i e = omega (arith, ap (λ r. length (left r)) e)

length-left : (b : Buffer) (size : ℕ) → length (left (read_text b size)) ≤ length b.rest
length-left b size = elim (Bool-cases (ltb (length b.rest) size)) [
  | inl short ↦ rw short (omega arith)
  | inr long ↦ rw long (omega (arith, length-drop size b.rest))
]

reserved :
    (b : Buffer) (s : Bytes) (reserve : ℕ)
    → (length s ≤ reserve) ⊎ (length (content b) + length s ≤ 256)
    → buffers.reserve_and_write_utf8 b s reserve ≡ ok (append b s)
reserved b s reserve (inl h) = elim (Bool-cases (ltb 256 (length (content b) + length s))) [
  | inl full ↦ rw (full, not_shorter reserve (length s) h) refl
  | inr fits ↦ rw fits refl
]
reserved b s reserve (inr h) = rw (not_shorter 256 (length (content b) + length s) h) refl

pub buffers-Documented : Documented buffers
buffers-Documented = record {
  empty_content = refl;
  empty_reader = refl;
  buffer_content = refl;
  buffer_reader = refl;
  buffer_grows = refl;
  utf8_bytes_exact = λ s h. refl;
  reserved_utf8 = λ b s reserve g h. (
    append b s,
    reserved b s reserve h,
    sym (append_assoc b.done b.rest s),
    refl,
    refl,
    omega arith,
  );
  written_short =
      λ b i g. (sym (append_assoc b.done b.rest (short_bytes_of i)), refl, refl, omega arith);
  written_region = λ b s index size g.
      (sym (append_assoc b.done b.rest (take size (drop index (content s)))), refl);
  readable_between = λ b. omega (arith, length-append b.done b.rest);
  got_short = λ b before after i c h.
      rw (c, drop-append before (short_bytes_of i ++ after)) (ap ok (short_of_bytes i h));
  got_text = λ b before middle after c. region_lem (content b) before middle after c;
  sliced = λ b before middle after c. (
    record { done = []; rest = middle },
    rw (region_lem (content b) before middle after c) refl,
    refl,
    refl,
  );
  same_text_sound = bytes_eq_sound;
  same_text_complete = bytes_eq_complete;
  did_read_short = λ b after i u h. (
    record { done = b.done ++ short_bytes_of i; rest = after },
    read_short_lem b after i (sym (unread_rest b) ∙ u) h,
    unread_rest (record { done = b.done ++ short_bytes_of i; rest = after }),
  );
  did_read_text = λ b middle after u. (
    record { done = b.done ++ middle; rest = after },
    read_text_lem b middle after (sym (unread_rest b) ∙ u),
    unread_rest (record { done = b.done ++ middle; rest = after }),
  );
  reads_two_bytes = λ b b' i e. rw (unread_rest b, unread_rest b') (short_two b.done b.rest b' i e);
  reads_forward = λ b b' size s e.
      rw (unread_rest b, unread_rest b')
        (omega (arith, length-left b size, ap (λ r. length (left r)) e));
}
