-- ===== src/Core/Category.antt =====
-- `enum class Category : uint8_t` of core.hpp, by its values. Stored data can hold any byte, which
-- the code checks against `category_count`, so a category is a number here.
use surveillance_hound.Common.{ℕ}

abbrev pub category_count : ℕ
category_count = 19

abbrev pub flock : ℕ
flock = 0

abbrev pub axon : ℕ
axon = 1

abbrev pub glasses : ℕ
glasses = 2

abbrev pub skimmer : ℕ
skimmer = 3

abbrev pub raven : ℕ
raven = 4

abbrev pub airtag : ℕ
airtag = 5

abbrev pub tile : ℕ
tile = 6

abbrev pub samsung_tag : ℕ
samsung_tag = 7

abbrev pub google_tag : ℕ
google_tag = 8

abbrev pub drone : ℕ
drone = 9

abbrev pub alpr : ℕ
alpr = 10

abbrev pub camera : ℕ
camera = 11

abbrev pub ring : ℕ
ring = 12

abbrev pub ibeacon : ℕ
ibeacon = 13

abbrev pub flipper : ℕ
flipper = 14

abbrev pub pwnagotchi : ℕ
pwnagotchi = 15

abbrev pub pineapple : ℕ
pineapple = 16

abbrev pub deauth : ℕ
deauth = 17

abbrev pub evil_twin : ℕ
evil_twin = 18
