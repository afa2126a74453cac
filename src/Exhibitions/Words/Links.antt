-- ===== src/Exhibitions/Words/Links.antt =====
-- pkg/exhibitions/extract.go: the words that a link to a programme is known by.
use museumscraper.Prelude.{String, List, [], ◌∷◌, ◌++◌}

abbrev pub listing_paths : List String
listing_paths =
    "/whats-on" ∷ "/what-s-on" ∷ "/exhibitions" ∷ "/exhibition" ∷ "/en/whats-on" ∷ "/en/what-s-on"
    ∷ "/en/exhibitions" ∷ "/en/exhibition" ∷ "/calendar/exhibitions" ∷ "/visit/exhibitions"
    ∷ "/programme" ∷ "/program" ∷ "/en/programme" ∷ "/en/program" ∷ "/events" ∷ "/en/events"
    ∷ "/ausstellungen" ∷ "/expositions" ∷ "/esposizioni" ∷ "/exposiciones" ∷ "/tentoonstellingen"
    ∷ "/utstillinger" ∷ "/wystawy" ∷ []

abbrev pub listing_link_words : List String
listing_link_words =
    "what's on" ∷ "whats on" ∷ "what’s on" ∷ "exhibition" ∷ "exhibitions" ∷ "on view" ∷ "on display"
    ∷ "current" ∷ "programme" ∷ "program" ∷ "calendar" ∷ "ausstellung" ∷ "ausstellungen"
    ∷ "veranstaltungen" ∷ "exposition" ∷ "expositions" ∷ "agenda" ∷ "esposizioni" ∷ "mostre"
    ∷ "exposiciones" ∷ "exposições" ∷ "tentoonstelling" ∷ "tentoonstellingen" ∷ "utstilling"
    ∷ "wystawy" ∷ "utställning" ∷ "utställningar" ∷ "utstallning" ∷ "utstallningar" ∷ "udstilling"
    ∷ "udstillinger" ∷ "näyttely" ∷ "nayttely" ∷ "näyttelyt" ∷ []

abbrev pub past_listing_words : List String
past_listing_words =
    "past exhibition" ∷ "past show" ∷ "previous exhibition" ∷ "archive" ∷ "arkiv" ∷ "tidigare"
    ∷ "förra" ∷ "vergangene" ∷ "vroegere" ∷ "passate" ∷ "anteriores" ∷ "archiv"
    ∷ "ausstellungsarchiv" ∷ "passées" ∷ "passees" ∷ "aiemmat" ∷ "tidligere" ∷ []

abbrev pub current_listing_words : List String
current_listing_words =
    "current" ∷ "now on" ∷ "on now" ∷ "on view now" ∷ "aktuell" ∷ "aktuella" ∷ "pågående"
    ∷ "pagaende" ∷ "nu visas" ∷ "actueel" ∷ "en cours" ∷ "attuale" ∷ "actual" ∷ "nykyiset" ∷ "jetzt"
    ∷ "heute" ∷ []

abbrev pub strong_path_hints : List String
strong_path_hints =
    "exhibition" ∷ "ausstellung" ∷ "exposition" ∷ "mostra" ∷ "mostre" ∷ "exposicion" ∷ "exposicao"
    ∷ "tentoonstelling" ∷ "on-view" ∷ "utstilling" ∷ "utstallning" ∷ "utställning" ∷ "udstilling"
    ∷ "nayttely" ∷ "näyttely" ∷ "wystawa" ∷ "vystava" ∷ "výstava" ∷ "kiallitas" ∷ "kiállítás"
    ∷ "sergi" ∷ "izlozba" ∷ "izložba" ∷ "razstava" ∷ "naroda" ∷ "vystavka" ∷ "выставка"
    ∷ "permanent" ∷ "dauerausstellung" ∷ "basutstallning" ∷ "basutställning" ∷ []

abbrev pub weak_path_hints : List String
weak_path_hints =
    "whats-on" ∷ "what-s-on" ∷ "display" ∷ "event" ∷ "programme" ∷ "program" ∷ "calendar" ∷ "agenda"
    ∷ []

abbrev pub exhibition_path_hints : List String
exhibition_path_hints = strong_path_hints ++ weak_path_hints
