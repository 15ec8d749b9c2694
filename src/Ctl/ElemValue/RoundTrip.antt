-- ===== src/Ctl/ElemValue/RoundTrip.antt =====
-- The getters of src/ctl/elem-value.c give what the setters were given.
use alsa_gobject.Base.{ℕ, ◌+◌, ◌%◌, ◌^◌, ◌≤◌, ◌≡◌, refl, ap, ◌∙◌, List, map, length, padded, arith}
use alsa_gobject.Ctl.ElemValue.{
  ElemValue, Layouts, sizeof_array, sign_extend, is_positive, set_bool, get_bool, set_int, get_int,
  set_enum, get_enum, set_bytes, get_bytes, set_iec60958_channel_status,
  get_iec60958_channel_status, set_iec60958_user_data, get_iec60958_user_data, set_int64, get_int64,
}
use alsa_gobject.Ctl.ElemValue.Arrays.{Words}
use alsa_gobject.Ctl.ElemValue.Neighbours.{first-second, second-first}
use alsa_gobject.Ctl.ElemValue.Setters.{
  load-set_array, Words32, Words-sign_extend, truth, padded-map, positive-sign_extend,
  low-sign_extend, map_id,
}

module _ (M : Layouts) (self : ElemValue) where
  -- For an object whose bytes hold the arrays, and values that fit in their types: each getter gives the
  -- values that the setter for the same type of element was given, cut off at the number of places of the
  -- array, and zeros in the places behind them. A truth value comes back as 1 if it was positive, else as
  -- 0; a number of 32 bits goes through a signed `long` of 64 bits and comes back as it was.
  pub getters-setters :
      (ints enums bytes int64s : List ℕ)
      → M.value_at + sizeof_array M.uchar 24 ≤ length self.bytes
      → M.long.size ≡ 8
      → Words32 ints
      → Words M.uint enums
      → Words M.uchar bytes
      → Words M.longlong int64s
      → ((get_bool M (set_bool M self ints)).1 ≡ padded 128 (map truth ints))
        × ((get_int M (set_int M self ints)).1 ≡ padded 128 ints)
        × (get_enum M (set_enum M self enums) ≡ padded 128 enums)
        × (get_bytes M (set_bytes M self bytes) ≡ padded 512 bytes)
        × (get_iec60958_channel_status M (set_iec60958_channel_status M self bytes)
            ≡ padded 24 bytes)
        × (get_iec60958_user_data M (set_iec60958_user_data M self bytes) ≡ padded 147 bytes)
        × (get_int64 M (set_int64 M self int64s) ≡ padded 64 int64s)
  unfolding set_bool get_bool set_int get_int set_enum get_enum set_bytes get_bytes
      set_iec60958_channel_status get_iec60958_channel_status set_iec60958_user_data
      get_iec60958_user_data set_int64 get_int64
  getters-setters ints enums bytes int64s inside size w32 wenum wbytes w64 =
      let at = M.value_at in
      let fits : at ≤ length self.bytes = omega arith in
      let longs =
        load-set_array M.long at 128 (map sign_extend ints) self fits
          (Words-sign_extend M.long ints size w32) in
      (
        ap (λ t. map is_positive t) longs
            ∙ padded-map is_positive truth 128 ints refl positive-sign_extend w32,
        ap (λ t. map (λ (v : ℕ). v % 2 ^ 32) t) longs
            ∙ padded-map (λ (v : ℕ). v % 2 ^ 32) (λ v. v) 128 ints refl low-sign_extend w32
            ∙ ap (λ t. padded 128 t) (map_id ints),
        load-set_array M.uint at 128 enums self fits wenum,
        load-set_array M.uchar at 512 bytes self fits wbytes,
        load-set_array M.uchar at 24 bytes self fits wbytes,
        load-set_array M.uchar (at + sizeof_array M.uchar 24) 147 bytes self inside wbytes,
        load-set_array M.longlong at 64 int64s self fits w64,
      )

  -- The channel status and the user data of IEC 60958 do not disturb one another: where the bytes of the
  -- object hold the status, either is still given after the other was set.
  pub iec60958_apart :
      (status data_bytes : List ℕ)
      → M.value_at + sizeof_array M.uchar 24 ≤ length self.bytes
      → Words M.uchar status
      → Words M.uchar data_bytes
      → (get_iec60958_channel_status M
            (set_iec60958_user_data M (set_iec60958_channel_status M self status) data_bytes)
          ≡ padded 24 status)
        × (get_iec60958_user_data M
              (set_iec60958_channel_status M (set_iec60958_user_data M self data_bytes) status)
            ≡ padded 147 data_bytes)
  unfolding set_iec60958_channel_status get_iec60958_channel_status set_iec60958_user_data
      get_iec60958_user_data
  iec60958_apart status data_bytes inside ws wd = (
    first-second M.uchar M.value_at 24 147 status data_bytes self inside ws,
    second-first M.uchar M.value_at 24 147 status data_bytes self inside wd,
  )
