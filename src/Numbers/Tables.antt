-- ===== src/Numbers/Tables.antt =====
-- The tables of string/numbers.cc.
use cpp_base.Prelude.{ℕ, List, [], ◌∷◌}

unfoldable pub two_ascii_digits : List (ℕ × ℕ)
two_ascii_digits =
    (48, 48)
    ∷ (48, 49)
    ∷ (48, 50)
    ∷ (48, 51)
    ∷ (48, 52)
    ∷ (48, 53)
    ∷ (48, 54)
    ∷ (48, 55)
    ∷ (48, 56)
    ∷ (48, 57)
    ∷ (49, 48)
    ∷ (49, 49)
    ∷ (49, 50)
    ∷ (49, 51)
    ∷ (49, 52)
    ∷ (49, 53)
    ∷ (49, 54)
    ∷ (49, 55)
    ∷ (49, 56)
    ∷ (49, 57)
    ∷ (50, 48)
    ∷ (50, 49)
    ∷ (50, 50)
    ∷ (50, 51)
    ∷ (50, 52)
    ∷ (50, 53)
    ∷ (50, 54)
    ∷ (50, 55)
    ∷ (50, 56)
    ∷ (50, 57)
    ∷ (51, 48)
    ∷ (51, 49)
    ∷ (51, 50)
    ∷ (51, 51)
    ∷ (51, 52)
    ∷ (51, 53)
    ∷ (51, 54)
    ∷ (51, 55)
    ∷ (51, 56)
    ∷ (51, 57)
    ∷ (52, 48)
    ∷ (52, 49)
    ∷ (52, 50)
    ∷ (52, 51)
    ∷ (52, 52)
    ∷ (52, 53)
    ∷ (52, 54)
    ∷ (52, 55)
    ∷ (52, 56)
    ∷ (52, 57)
    ∷ (53, 48)
    ∷ (53, 49)
    ∷ (53, 50)
    ∷ (53, 51)
    ∷ (53, 52)
    ∷ (53, 53)
    ∷ (53, 54)
    ∷ (53, 55)
    ∷ (53, 56)
    ∷ (53, 57)
    ∷ (54, 48)
    ∷ (54, 49)
    ∷ (54, 50)
    ∷ (54, 51)
    ∷ (54, 52)
    ∷ (54, 53)
    ∷ (54, 54)
    ∷ (54, 55)
    ∷ (54, 56)
    ∷ (54, 57)
    ∷ (55, 48)
    ∷ (55, 49)
    ∷ (55, 50)
    ∷ (55, 51)
    ∷ (55, 52)
    ∷ (55, 53)
    ∷ (55, 54)
    ∷ (55, 55)
    ∷ (55, 56)
    ∷ (55, 57)
    ∷ (56, 48)
    ∷ (56, 49)
    ∷ (56, 50)
    ∷ (56, 51)
    ∷ (56, 52)
    ∷ (56, 53)
    ∷ (56, 54)
    ∷ (56, 55)
    ∷ (56, 56)
    ∷ (56, 57)
    ∷ (57, 48)
    ∷ (57, 49)
    ∷ (57, 50)
    ∷ (57, 51)
    ∷ (57, 52)
    ∷ (57, 53)
    ∷ (57, 54)
    ∷ (57, 55)
    ∷ (57, 56)
    ∷ (57, 57)
    ∷ []

unfoldable pub int32_max_length : List ℕ
int32_max_length =
    0 ∷ 0 ∷ 31 ∷ 20 ∷ 16 ∷ 14 ∷ 12 ∷ 12 ∷ 11 ∷ 10 ∷ 10 ∷ 9 ∷ 9 ∷ 9 ∷ 9 ∷ 8 ∷ 8 ∷ 8 ∷ 8 ∷ 8 ∷ 8 ∷ 8
    ∷ 7 ∷ 7 ∷ 7 ∷ 7 ∷ 7 ∷ 7 ∷ 7 ∷ 7 ∷ 7 ∷ 7 ∷ 7 ∷ 7 ∷ 7 ∷ 7 ∷ 6 ∷ []

unfoldable pub int32_cutoff : List ℕ
int32_cutoff =
    0 ∷ 0 ∷ 1073741823 ∷ 715827882 ∷ 536870911 ∷ 429496729 ∷ 357913941 ∷ 306783378 ∷ 268435455
    ∷ 238609294 ∷ 214748364 ∷ 195225786 ∷ 178956970 ∷ 165191049 ∷ 153391689 ∷ 143165576 ∷ 134217727
    ∷ 126322567 ∷ 119304647 ∷ 113025455 ∷ 107374182 ∷ 102261126 ∷ 97612893 ∷ 93368854 ∷ 89478485
    ∷ 85899345 ∷ 82595524 ∷ 79536431 ∷ 76695844 ∷ 74051160 ∷ 71582788 ∷ 69273666 ∷ 67108863
    ∷ 65075262 ∷ 63161283 ∷ 61356675 ∷ 59652323 ∷ []

unfoldable pub int32_remain : List ℕ
int32_remain =
    0 ∷ 0 ∷ 1 ∷ 1 ∷ 3 ∷ 2 ∷ 1 ∷ 1 ∷ 7 ∷ 1 ∷ 7 ∷ 1 ∷ 7 ∷ 10 ∷ 1 ∷ 7 ∷ 15 ∷ 8 ∷ 1 ∷ 2 ∷ 7 ∷ 1 ∷ 1 ∷ 5
    ∷ 7 ∷ 22 ∷ 23 ∷ 10 ∷ 15 ∷ 7 ∷ 7 ∷ 1 ∷ 31 ∷ 1 ∷ 25 ∷ 22 ∷ 19 ∷ []

unfoldable pub int64_max_length : List ℕ
int64_max_length =
    0 ∷ 0 ∷ 63 ∷ 40 ∷ 32 ∷ 28 ∷ 25 ∷ 23 ∷ 21 ∷ 20 ∷ 19 ∷ 19 ∷ 18 ∷ 18 ∷ 17 ∷ 17 ∷ 16 ∷ 16 ∷ 16 ∷ 15
    ∷ 15 ∷ 15 ∷ 15 ∷ 14 ∷ 14 ∷ 14 ∷ 14 ∷ 14 ∷ 14 ∷ 13 ∷ 13 ∷ 13 ∷ 13 ∷ 13 ∷ 13 ∷ 13 ∷ 13 ∷ []

unfoldable pub int64_cutoff : List ℕ
int64_cutoff =
    0 ∷ 0 ∷ 4611686018427387903 ∷ 3074457345618258602 ∷ 2305843009213693951 ∷ 1844674407370955161
    ∷ 1537228672809129301 ∷ 1317624576693539401 ∷ 1152921504606846975 ∷ 1024819115206086200
    ∷ 922337203685477580 ∷ 838488366986797800 ∷ 768614336404564650 ∷ 709490156681136600
    ∷ 658812288346769700 ∷ 614891469123651720 ∷ 576460752303423487 ∷ 542551296285575047
    ∷ 512409557603043100 ∷ 485440633518672410 ∷ 461168601842738790 ∷ 439208192231179800
    ∷ 419244183493398900 ∷ 401016175515425035 ∷ 384307168202282325 ∷ 368934881474191032
    ∷ 354745078340568300 ∷ 341606371735362066 ∷ 329406144173384850 ∷ 318047311615681924
    ∷ 307445734561825860 ∷ 297528130221121800 ∷ 288230376151711743 ∷ 279496122328932600
    ∷ 271275648142787523 ∷ 263524915338707880 ∷ 256204778801521550 ∷ []

unfoldable pub int64_remain : List ℕ
int64_remain =
    0 ∷ 0 ∷ 1 ∷ 1 ∷ 3 ∷ 2 ∷ 1 ∷ 0 ∷ 7 ∷ 7 ∷ 7 ∷ 7 ∷ 7 ∷ 7 ∷ 7 ∷ 7 ∷ 15 ∷ 8 ∷ 7 ∷ 17 ∷ 7 ∷ 7 ∷ 7 ∷ 2
    ∷ 7 ∷ 7 ∷ 7 ∷ 25 ∷ 7 ∷ 11 ∷ 7 ∷ 7 ∷ 31 ∷ 7 ∷ 25 ∷ 7 ∷ 7 ∷ []

unfoldable pub ascii_to_int : List ℕ
ascii_to_int =
    36 ∷ 36 ∷ 36 ∷ 36 ∷ 36 ∷ 36 ∷ 36 ∷ 36 ∷ 36 ∷ 36 ∷ 36 ∷ 36 ∷ 36 ∷ 36 ∷ 36 ∷ 36 ∷ 36 ∷ 36 ∷ 36
    ∷ 36 ∷ 36 ∷ 36 ∷ 36 ∷ 36 ∷ 36 ∷ 36 ∷ 36 ∷ 36 ∷ 36 ∷ 36 ∷ 36 ∷ 36 ∷ 36 ∷ 36 ∷ 36 ∷ 36 ∷ 36 ∷ 36
    ∷ 36 ∷ 36 ∷ 36 ∷ 36 ∷ 36 ∷ 36 ∷ 36 ∷ 36 ∷ 36 ∷ 36 ∷ 0 ∷ 1 ∷ 2 ∷ 3 ∷ 4 ∷ 5 ∷ 6 ∷ 7 ∷ 8 ∷ 9 ∷ 36
    ∷ 36 ∷ 36 ∷ 36 ∷ 36 ∷ 36 ∷ 36 ∷ 10 ∷ 11 ∷ 12 ∷ 13 ∷ 14 ∷ 15 ∷ 16 ∷ 17 ∷ 18 ∷ 19 ∷ 20 ∷ 21 ∷ 22
    ∷ 23 ∷ 24 ∷ 25 ∷ 26 ∷ 27 ∷ 28 ∷ 29 ∷ 30 ∷ 31 ∷ 32 ∷ 33 ∷ 34 ∷ 35 ∷ 36 ∷ 36 ∷ 36 ∷ 36 ∷ 36 ∷ 36
    ∷ 10 ∷ 11 ∷ 12 ∷ 13 ∷ 14 ∷ 15 ∷ 16 ∷ 17 ∷ 18 ∷ 19 ∷ 20 ∷ 21 ∷ 22 ∷ 23 ∷ 24 ∷ 25 ∷ 26 ∷ 27 ∷ 28
    ∷ 29 ∷ 30 ∷ 31 ∷ 32 ∷ 33 ∷ 34 ∷ 35 ∷ 36 ∷ 36 ∷ 36 ∷ 36 ∷ 36 ∷ 36 ∷ 36 ∷ 36 ∷ 36 ∷ 36 ∷ 36 ∷ 36
    ∷ 36 ∷ 36 ∷ 36 ∷ 36 ∷ 36 ∷ 36 ∷ 36 ∷ 36 ∷ 36 ∷ 36 ∷ 36 ∷ 36 ∷ 36 ∷ 36 ∷ 36 ∷ 36 ∷ 36 ∷ 36 ∷ 36
    ∷ 36 ∷ 36 ∷ 36 ∷ 36 ∷ 36 ∷ 36 ∷ 36 ∷ 36 ∷ 36 ∷ 36 ∷ 36 ∷ 36 ∷ 36 ∷ 36 ∷ 36 ∷ 36 ∷ 36 ∷ 36 ∷ 36
    ∷ 36 ∷ 36 ∷ 36 ∷ 36 ∷ 36 ∷ 36 ∷ 36 ∷ 36 ∷ 36 ∷ 36 ∷ 36 ∷ 36 ∷ 36 ∷ 36 ∷ 36 ∷ 36 ∷ 36 ∷ 36 ∷ 36
    ∷ 36 ∷ 36 ∷ 36 ∷ 36 ∷ 36 ∷ 36 ∷ 36 ∷ 36 ∷ 36 ∷ 36 ∷ 36 ∷ 36 ∷ 36 ∷ 36 ∷ 36 ∷ 36 ∷ 36 ∷ 36 ∷ 36
    ∷ 36 ∷ 36 ∷ 36 ∷ 36 ∷ 36 ∷ 36 ∷ 36 ∷ 36 ∷ 36 ∷ 36 ∷ 36 ∷ 36 ∷ 36 ∷ 36 ∷ 36 ∷ 36 ∷ 36 ∷ 36 ∷ 36
    ∷ 36 ∷ 36 ∷ 36 ∷ 36 ∷ 36 ∷ 36 ∷ 36 ∷ 36 ∷ 36 ∷ 36 ∷ 36 ∷ 36 ∷ 36 ∷ 36 ∷ 36 ∷ 36 ∷ 36 ∷ 36 ∷ 36
    ∷ 36 ∷ 36 ∷ 36 ∷ 36 ∷ 36 ∷ 36 ∷ 36 ∷ []
