-- ===== src/EvName/Entries.antt =====
-- ev_name/eventname_enumer.go: the entries of `_EventNameNameToValueMap` and `_EventNameNames`, as
-- the bounds of the slices that they are, and the value of each key of the map.
use goesl.Base.{ℕ, List, [], ◌∷◌}

pub record Entry : Type 0 where
  pub lo : ℕ
  pub hi : ℕ
  pub value : ℕ

abbrev entry : ℕ → ℕ → ℕ → Entry
entry lo hi value = record { lo = lo; hi = hi; value = value }

-- For each entry the map has two keys with this value: the slice of either table.
unfoldable pub value_entries : List Entry
value_entries =
    entry 0 6 0
    ∷ entry 6 11 1
    ∷ entry 11 25 2
    ∷ entry 25 40 3
    ∷ entry 40 53 4
    ∷ entry 53 70 5
    ∷ entry 70 84 6
    ∷ entry 84 98 7
    ∷ entry 98 121 8
    ∷ entry 121 136 9
    ∷ entry 136 160 10
    ∷ entry 160 172 11
    ∷ entry 172 186 12
    ∷ entry 186 200 13
    ∷ entry 200 216 14
    ∷ entry 216 232 15
    ∷ entry 232 254 16
    ∷ entry 254 270 17
    ∷ entry 270 282 18
    ∷ entry 282 296 19
    ∷ entry 296 315 20
    ∷ entry 315 332 21
    ∷ entry 332 344 22
    ∷ entry 344 347 23
    ∷ entry 347 350 24
    ∷ entry 350 362 25
    ∷ entry 362 375 26
    ∷ entry 375 382 27
    ∷ entry 382 390 28
    ∷ entry 390 397 29
    ∷ entry 397 406 30
    ∷ entry 406 410 31
    ∷ entry 410 416 32
    ∷ entry 416 429 33
    ∷ entry 429 440 34
    ∷ entry 440 453 35
    ∷ entry 453 457 36
    ∷ entry 457 464 37
    ∷ entry 464 475 38
    ∷ entry 475 484 39
    ∷ entry 484 496 40
    ∷ entry 496 510 41
    ∷ entry 510 525 42
    ∷ entry 525 538 43
    ∷ entry 538 544 44
    ∷ entry 544 549 45
    ∷ entry 549 563 46
    ∷ entry 563 578 47
    ∷ entry 578 591 48
    ∷ entry 591 606 49
    ∷ entry 606 615 50
    ∷ entry 615 619 51
    ∷ entry 619 631 52
    ∷ entry 631 643 53
    ∷ entry 643 655 54
    ∷ entry 655 666 55
    ∷ entry 666 675 56
    ∷ entry 675 681 57
    ∷ entry 681 694 58
    ∷ entry 694 717 59
    ∷ entry 717 729 60
    ∷ entry 729 741 61
    ∷ entry 741 755 62
    ∷ entry 755 767 63
    ∷ entry 767 774 64
    ∷ entry 774 781 65
    ∷ entry 781 798 66
    ∷ entry 798 817 67
    ∷ entry 817 836 68
    ∷ entry 836 845 69
    ∷ entry 845 854 70
    ∷ entry 854 871 71
    ∷ entry 871 882 72
    ∷ entry 882 885 73
    ∷ entry 885 897 74
    ∷ entry 897 908 75
    ∷ entry 908 922 76
    ∷ entry 922 935 77
    ∷ entry 935 946 78
    ∷ entry 946 953 79
    ∷ entry 953 964 80
    ∷ entry 964 979 81
    ∷ entry 979 993 82
    ∷ entry 993 1014 83
    ∷ entry 1014 1029 84
    ∷ entry 1029 1043 85
    ∷ entry 1043 1060 86
    ∷ entry 1060 1071 87
    ∷ entry 1071 1083 88
    ∷ entry 1083 1086 89
    ∷ []

unfoldable pub name_bounds : List (ℕ × ℕ)
name_bounds =
    (0, 6)
    ∷ (6, 11)
    ∷ (11, 25)
    ∷ (25, 40)
    ∷ (40, 53)
    ∷ (53, 70)
    ∷ (70, 84)
    ∷ (84, 98)
    ∷ (98, 121)
    ∷ (121, 136)
    ∷ (136, 160)
    ∷ (160, 172)
    ∷ (172, 186)
    ∷ (186, 200)
    ∷ (200, 216)
    ∷ (216, 232)
    ∷ (232, 254)
    ∷ (254, 270)
    ∷ (270, 282)
    ∷ (282, 296)
    ∷ (296, 315)
    ∷ (315, 332)
    ∷ (332, 344)
    ∷ (344, 347)
    ∷ (347, 350)
    ∷ (350, 362)
    ∷ (362, 375)
    ∷ (375, 382)
    ∷ (382, 390)
    ∷ (390, 397)
    ∷ (397, 406)
    ∷ (406, 410)
    ∷ (410, 416)
    ∷ (416, 429)
    ∷ (429, 440)
    ∷ (440, 453)
    ∷ (453, 457)
    ∷ (457, 464)
    ∷ (464, 475)
    ∷ (475, 484)
    ∷ (484, 496)
    ∷ (496, 510)
    ∷ (510, 525)
    ∷ (525, 538)
    ∷ (538, 544)
    ∷ (544, 549)
    ∷ (549, 563)
    ∷ (563, 578)
    ∷ (578, 591)
    ∷ (591, 606)
    ∷ (606, 615)
    ∷ (615, 619)
    ∷ (619, 631)
    ∷ (631, 643)
    ∷ (643, 655)
    ∷ (655, 666)
    ∷ (666, 675)
    ∷ (675, 681)
    ∷ (681, 694)
    ∷ (694, 717)
    ∷ (717, 729)
    ∷ (729, 741)
    ∷ (741, 755)
    ∷ (755, 767)
    ∷ (767, 774)
    ∷ (774, 781)
    ∷ (781, 798)
    ∷ (798, 817)
    ∷ (817, 836)
    ∷ (836, 845)
    ∷ (845, 854)
    ∷ (854, 871)
    ∷ (871, 882)
    ∷ (882, 885)
    ∷ (885, 897)
    ∷ (897, 908)
    ∷ (908, 922)
    ∷ (922, 935)
    ∷ (935, 946)
    ∷ (946, 953)
    ∷ (953, 964)
    ∷ (964, 979)
    ∷ (979, 993)
    ∷ (993, 1014)
    ∷ (1014, 1029)
    ∷ (1029, 1043)
    ∷ (1043, 1060)
    ∷ (1060, 1071)
    ∷ (1071, 1083)
    ∷ (1083, 1086)
    ∷ []
