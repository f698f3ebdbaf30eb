-- ===== src/Webapp/BidOrder.antt =====
-- utils/compareBids.ts and utils/bidSorter.ts: the comparison of two bids. `toNumber` of a BigNumber
-- throws on a number that is not below 2^53 in absolute value.
use theword_monorepo.Prelude.{
  ℕ, ◌+◌, ◌*◌, ◌^◌, ◌<◌, ◌≡◌, Bool, ◌&&◌, ◌||◌, Option, none, some, arith, ltb, ◌==◌, if◌then◌else◌,
}
use theword_monorepo.Prelude.Int.{ℤ, pos, ◌-ℤ◌, ltb_ℤ, pos_part, neg_part}

abbrev pub to_number : ℤ → Option ℤ
to_number n = if ltb (pos_part n + neg_part n) (2 ^ 53) then some n else none

pub record OrderedBid : Type 0 where
  pub block_number : ℕ
  pub block_timestamp : ℕ
  pub tx_index : ℕ

abbrev pub generate_bid_score : OrderedBid → ℕ
generate_bid_score b = b.block_number * 1000000 + b.tx_index

unfoldable pub compare_bids : OrderedBid → OrderedBid → Option ℤ
compare_bids a b = to_number (pos (generate_bid_score a) -ℤ pos (generate_bid_score b))

abbrev pub adjusted_time : OrderedBid → ℕ
adjusted_time b = b.block_timestamp * 1000000 + b.tx_index

unfoldable pub compare_bids_chronologically : OrderedBid → OrderedBid → Option ℤ
compare_bids_chronologically a b = to_number (pos (adjusted_time b) -ℤ pos (adjusted_time a))

-- By block, and within a block by the index of the transaction.
abbrev pub is_before : ℕ → ℕ → ℕ → ℕ → Bool
is_before block tx block' tx' = ltb block block' || ((block == block') && ltb tx tx')

to_number-some : (n m : ℤ) → to_number n ≡ some m → n ≡ m
to_number-some n m h = ground arith

score_before :
    (b t b' t' : ℕ)
    → t < 1000000
    → t' < 1000000
    → ltb (b * 1000000 + t) (b' * 1000000 + t') ≡ is_before b t b' t'
score_before b t b' t' h k = ground arith

sign_of_difference : (m n : ℕ) → ltb_ℤ (pos m -ℤ pos n) (pos 0) ≡ ltb m n
unfolding ◌-ℤ◌
sign_of_difference m n = ground arith

-- For transaction indices below 1,000,000 and comparisons that give a number, compareBids is negative
-- just if the first bid comes before the second one, by block and within a block by transaction, and
-- compareBidsChronologically just if the second one comes before the first, by time and transaction.
pub compare_bids_sign :
    (a b : OrderedBid) (n m : ℤ)
    → a.tx_index < 1000000
    → b.tx_index < 1000000
    → compare_bids a b ≡ some n
    → compare_bids_chronologically a b ≡ some m
    → (ltb_ℤ n (pos 0) ≡ is_before a.block_number a.tx_index b.block_number b.tx_index)
      × (ltb_ℤ m (pos 0) ≡ is_before b.block_timestamp b.tx_index a.block_timestamp a.tx_index)
unfolding compare_bids compare_bids_chronologically
compare_bids_sign a b n m h k c d =
    let e = to_number-some (pos (generate_bid_score a) -ℤ pos (generate_bid_score b)) n c in
    let f = to_number-some (pos (adjusted_time b) -ℤ pos (adjusted_time a)) m d in
    rw⁻¹ (e, f)
      (
        rw (sign_of_difference (generate_bid_score a) (generate_bid_score b))
            (score_before a.block_number a.tx_index b.block_number b.tx_index h k),
        rw (sign_of_difference (adjusted_time b) (adjusted_time a))
            (score_before b.block_timestamp b.tx_index a.block_timestamp a.tx_index k h),
      )
