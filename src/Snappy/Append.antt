-- ===== src/Snappy/Append.antt =====
-- The output buffer of the compressor as the sequence of bytes that it stands for.
use pim_swap.Base.{
  ℕ, zero, suc, ◌+◌, ◌-◌, ◌*◌, ◌%◌, ◌^◌, ◌≤◌, ◌<◌, ◌≡◌, ◌⊎◌, ◌∙◌, refl, sym, ap, inl, inr, true,
  false, List, [], ◌∷◌, ◌++◌, u32, ltb, leb, if◌then◌else◌, arith, length, get_or, set, take,
  length-set, length-take, get_or-set_self, get_or-set_ne, get_or-take, length-append,
  get_or-append_left, get_or-append_right, Bool-cases, dec_lt, subst, ltb_of_lt, ltb_of_le, leb→le,
}
use pim_swap.Mram.{Mram, mram_write, mram_write_inside, mram_write_outside}
use pim_swap.Snappy.Output.{out_buffer_length, OutBuffer, copy_in, make_room, put_bytes, room_for}

-- The byte that the output has at a position: in MRAM before the window, and in it from there on.
abbrev pub byte_of : OutBuffer → Mram → ℕ → ℕ
byte_of o m i =
    if ltb i o.append_window then m (o.buffer + i) else get_or o.window (i - o.append_window) 0

-- The second state has the output of the first followed by the bytes. Only the part of MRAM that
-- the window moved over has changed.
pub record Appends (bytes : List ℕ) (o : OutBuffer) (m : Mram) (o' : OutBuffer) (m' : Mram)
    : Type 0 where
  pub same_buffer : o'.buffer ≡ o.buffer
  pub window_size : length o'.window ≡ out_buffer_length
  pub curr : o'.curr ≡ o.curr + length bytes
  pub forward : o.append_window ≤ o'.append_window
  pub before_curr : o'.append_window ≤ o'.curr
  pub near : 0 < length bytes → o'.curr ≤ o'.append_window + out_buffer_length
  pub aligned : o.append_window % out_buffer_length ≡ 0 → o'.append_window % out_buffer_length ≡ 0
  pub old :
      (i : ℕ)
      → i < o.curr
      → i < o.append_window + out_buffer_length
      → byte_of o' m' i ≡ byte_of o m i
  pub new : (i : ℕ) → i < length bytes → byte_of o' m' (o.curr + i) ≡ get_or bytes i 0
  pub outside :
      (x : ℕ) → (x < o.buffer + o.append_window) ⊎ (o.buffer + o'.append_window ≤ x) → m' x ≡ m x

length-copy_in : (i : ℕ) (bytes w : List ℕ) → length (copy_in i bytes w) ≡ length w
unfolding copy_in
length-copy_in i [] w = refl
length-copy_in i (b ∷ bytes) w = length-copy_in (i + 1) bytes (set w i b) ∙ length-set w i b

copy_in_before :
    (i : ℕ) (bytes w : List ℕ) (j : ℕ) → j < i → get_or (copy_in i bytes w) j 0 ≡ get_or w j 0
unfolding copy_in
copy_in_before i [] w j h = refl
copy_in_before i (b ∷ bytes) w j h =
    copy_in_before (i + 1) bytes (set w i b) j (omega arith)
    ∙ get_or-set_ne w i j b 0 (λ e. omega (arith, e))

copy_in_at :
    (i : ℕ) (bytes w : List ℕ) (j : ℕ)
    → i + length bytes ≤ length w
    → j < length bytes
    → get_or (copy_in i bytes w) (i + j) 0 ≡ get_or bytes j 0
unfolding copy_in
copy_in_at i [] w j fits h = absurd (omega arith)
copy_in_at i (b ∷ bytes) w zero fits h =
    copy_in_before (i + 1) bytes (set w i b) (i + 0) (omega arith)
    ∙ ap (λ (k : ℕ). get_or (set w i b) k 0) (omega arith)
    ∙ get_or-set_self w i b 0 (omega arith)
copy_in_at i (b ∷ bytes) w (suc j) fits h =
    ap (λ (k : ℕ). get_or (copy_in (i + 1) bytes (set w i b)) k 0) (omega arith)
    ∙ copy_in_at (i + 1) bytes (set w i b) j (omega (arith, length-set w i b)) (omega arith)

-- Bytes that fit the window.
pub copy-Appends :
    (bytes : List ℕ) (o : OutBuffer) (m : Mram)
    → length o.window ≡ out_buffer_length
    → o.append_window ≤ o.curr
    → o.curr + length bytes ≤ o.append_window + out_buffer_length
    → o.curr + length bytes < 2 ^ 32
    → Appends bytes o m (put_bytes (o.curr - o.append_window) bytes o) m
unfolding put_bytes
copy-Appends bytes o m size order fits small =
    let at = o.curr - o.append_window in
    record {
      same_buffer = refl;
      window_size = length-copy_in at bytes o.window ∙ size;
      curr = omega arith;
      forward = omega arith;
      before_curr = omega arith;
      near = λ h. omega arith;
      aligned = λ h. h;
      old = λ i h near. ground (arith, copy_in_before at bytes o.window (i - o.append_window));
      new = λ i h.
          let here = copy_in_at at bytes o.window i (omega arith) h in
          let e : o.curr + i - o.append_window ≡ at + i = omega arith in
          let f : ltb (o.curr + i) o.append_window ≡ false = ltb_of_le _ _ (omega arith) in
          rw (f, e) here;
      outside = λ x h. refl;
    }

pub nothing-Appends :
    (o : OutBuffer) (m : Mram)
    → length o.window ≡ out_buffer_length
    → o.append_window ≤ o.curr
    → Appends [] o m o m
nothing-Appends o m size order = record {
  same_buffer = refl;
  window_size = size;
  curr = omega arith;
  forward = omega arith;
  before_curr = order;
  near = λ h. absurd (omega arith);
  aligned = λ h. h;
  old = λ i h near. refl;
  new = λ i h. absurd (omega arith);
  outside = λ x h. refl;
}

-- The head of a round leaves room for a byte in the window, and the output as it was.
pub make_room-Appends :
    (o : OutBuffer) (m : Mram)
    → length o.window ≡ out_buffer_length
    → o.append_window ≤ o.curr
    → o.curr < o.append_window + 2 * out_buffer_length
    → o.curr < 2 ^ 32
    → let (index, o', m') = make_room (o.curr - o.append_window) o m in
      Appends [] o m o' m' × (index < out_buffer_length) × (index ≡ o'.curr - o'.append_window)
unfolding make_room
make_room-Appends o m size order close small =
    elim (Bool-cases (leb out_buffer_length (o.curr - o.append_window))) [
      | inl past ↦
          let full : o.append_window + out_buffer_length ≤ o.curr =
            omega (arith, leb→le out_buffer_length (o.curr - o.append_window) past) in
          let next : u32 (o.append_window + out_buffer_length)
              ≡ o.append_window + out_buffer_length =
            omega arith in
          rw past (
            record {
              same_buffer = refl;
              window_size = size;
              curr = omega arith;
              forward = omega arith;
              before_curr = omega arith;
              near = λ h. absurd (omega arith);
              aligned = λ h. omega arith;
              old = λ i h near. back_old full next i near;
              new = λ i h. absurd (omega arith);
              outside = λ x h.
                  mram_write_outside w (o.buffer + o.append_window) m x
                    (elim h [ inl lo ↦ inl lo | inr hi ↦ inr (omega (arith, n, next, hi)) ]);
            },
            omega arith,
            omega arith,
          )
      | inr here ↦
          let room : o.curr - o.append_window < out_buffer_length = ground arith in
          rw here (nothing-Appends o m size order, room, refl)
    ]
  where
    w : List ℕ
    w = take out_buffer_length o.window

    n : length w ≡ out_buffer_length
    n = length-take out_buffer_length o.window (omega arith)

    back_old :
        o.append_window + out_buffer_length ≤ o.curr
        → u32 (o.append_window + out_buffer_length) ≡ o.append_window + out_buffer_length
        → (i : ℕ) → i < o.append_window + out_buffer_length
        → (if ltb i (u32 (o.append_window + out_buffer_length))
            then mram_write w (o.buffer + o.append_window) m (o.buffer + i)
            else get_or o.window (i - u32 (o.append_window + out_buffer_length)) 0)
          ≡ byte_of o m i
    back_old full next i near =
        let first : ltb i (o.append_window + out_buffer_length) ≡ true = ltb_of_lt i _ near in
        rw (next, first)
          (elim (dec_lt i o.append_window) [
            | yes lt ↦
                let e : ltb i o.append_window ≡ true = ltb_of_lt i _ lt in
                rw e (
                  mram_write_outside w (o.buffer + o.append_window) m (o.buffer + i)
                    (inl (omega arith)))
            | no ge ↦
                let e : ltb i o.append_window ≡ false = ltb_of_le i _ (omega arith) in
                let k : o.buffer + i - (o.buffer + o.append_window) ≡ i - o.append_window =
                  omega arith in
                rw e (
                  mram_write_inside w (o.buffer + o.append_window) m (o.buffer + i) (omega arith)
                    (omega (arith, n))
                  ∙ ap (λ (j : ℕ). get_or w j 0) k
                  ∙ get_or-take out_buffer_length o.window (i - o.append_window) 0 (omega arith))
          ])

-- One output after another.
pub Appends-append :
    (xs ys zs : List ℕ) (o : OutBuffer) (m : Mram) (o1 : OutBuffer) (m1 : Mram) (o2 : OutBuffer)
    (m2 : Mram)
    → xs ++ ys ≡ zs
    → Appends xs o m o1 m1
    → Appends ys o1 m1 o2 m2
    → Appends zs o m o2 m2
Appends-append xs ys zs o m o1 m1 o2 m2 e a b =
    subst (λ (l : List ℕ). Appends l o m o2 m2) e
      (record {
        same_buffer = b.same_buffer ∙ a.same_buffer;
        window_size = b.window_size;
        curr = omega (arith, a.curr, b.curr, size);
        forward = omega (arith, a.forward, b.forward);
        before_curr = b.before_curr;
        near = near;
        aligned = λ h. b.aligned (a.aligned h);
        old =
            λ i h near. b.old i (omega (arith, a.curr)) (omega (arith, a.forward)) ∙ a.old i h near;
        new = new;
        outside = λ x h.
            b.outside x (ground (arith, a.same_buffer, a.forward, b.forward, h))
            ∙ a.outside x (ground (arith, a.same_buffer, a.forward, b.forward, h));
      })
  where
    size : length (xs ++ ys) ≡ length xs + length ys
    size = length-append xs ys

    near : 0 < length (xs ++ ys) → o2.curr ≤ o2.append_window + out_buffer_length
    near h = elim (dec_lt 0 (length ys)) [
      | yes some_ys ↦ b.near some_ys
      | no no_ys ↦
          let first = a.near (omega (arith, size)) in omega (arith, first, b.curr, b.forward)
    ]

    new : (i : ℕ) → i < length (xs ++ ys) → byte_of o2 m2 (o.curr + i) ≡ get_or (xs ++ ys) i 0
    new i h = elim (dec_lt i (length xs)) [
      | yes left ↦
          let first = a.near (omega arith) in
          b.old (o.curr + i) (omega (arith, a.curr)) (omega (arith, a.curr, first))
          ∙ a.new i left
          ∙ sym (get_or-append_left xs ys i 0 left)
      | no right ↦
          let k = i - length xs in
          let p : o.curr + i ≡ o1.curr + k = omega (arith, a.curr) in
          let q : length xs + k ≡ i = omega arith in
          ap (byte_of o2 m2) p
          ∙ b.new k (omega (arith, size))
          ∙ sym (get_or-append_right xs ys k 0)
          ∙ ap (λ (j : ℕ). get_or (xs ++ ys) j 0) q
    ]

pub room_for_bounds :
    (index len : ℕ)
    → index < out_buffer_length
    → 0 < len
    → (0 < room_for index len)
      × (room_for index len ≤ len)
      × (index + room_for index len ≤ out_buffer_length)
room_for_bounds index len lt pos = (ground arith, ground arith, ground arith)

pub put_bytes_window :
    (index : ℕ) (l : List ℕ) (o : OutBuffer) → (put_bytes index l o).append_window ≡ o.append_window
unfolding put_bytes
put_bytes_window index l o = refl
