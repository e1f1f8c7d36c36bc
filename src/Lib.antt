-- ===== src/Lib.antt =====
-- The browser side of voria2: the JavaScript under assets/js, modelled as functions and transition
-- systems, with what makes each part correct.
--
-- Parts and files:
--   * Radar (assets/js/radar.js). Product is the table of products and productById, Floor is
--     floorToPeriod, Period is parsePeriod, Url is tileUrl, parseProtocolUrl and rawTileUrl, Latest is
--     what fetchLatest makes of an answer, Relative and Format are the wording of instants, Socket is
--     connectRadarSocket.
--   * Timeline (assets/js/hooks/radar_timeline.js). State is the hook's fields; Grid, Publish, Play,
--     Connection, Sync and Controls hold one function for each method, named like it; Step is the
--     transition system of all events (messages of the server, answers, news, clicks, pointer, keys
--     and timers). Wired, Aligned, Playback, Backoff, Faults, Ticks and Life are what holds of it; Html
--     is the HTML of the marks.
--   * Map (assets/js/hooks/maplibre_map.js). TileCache is fetchColorizedTile with its two maps (Content is
--     what a tile is made of), Overlay the radar's source and layer, Life the hook from mounted to
--     destroyed, Markers the markers, their bounds, text (Html) and links.
--   * Charts (assets/js/hooks/d3_charts.js). Segments is getNoDataRegions, splitIntoSegments and
--     renderNoDataRegions; Data and Multi are the handlers of the charts' messages; Pointer is the
--     tooltip of the "mousemove" handlers, Layout the sizes and scales of render, Rose is _renderRose;
--     Scene and Render are what render draws, Live and Multi.Live are a chart under its
--     messages and sizes; Theme is the colours and the labels of the time axis.
--   * Palettes (assets/js/radar_palettes.js). Numbers is the arithmetic and segmentSampler, Tables the
--     palettes of the products, Colorize is colorizeData and colorizeBitmap, Edges is bleedEdges,
--     Legend is legendDataUrl.
--   * Inputs. RichText is assets/js/hooks/hugerte_input.js, DateInput is
--     assets/js/hooks/flatpickr_input.js.
--   * Start (assets/js/app.js, assets/js/hooks/input_blur.js) is the small functions of the page.
--   * Entries is the JavaScript Map with texts as keys; Prelude holds shared names, Boolean tests,
--     lists, integers (Int) and texts (Text).
--   * Page is the timeline and the map together: emitFrame and onFrame (assets/js/radar.js), and the
--     server's radar_state, which both hear. Log, Tells, Steps and Heard lead to Agrees
--     and Shows, what holds of it.
-- The parts meet as in the program: the timeline takes its grid and its requests from Radar, publishes
-- frames that Overlay receives (Page), and Overlay asks for tiles by addresses of Radar.Url, which
-- TileCache serves.
--
-- Numbers: instants are whole milliseconds in ℤ or ℕ, coordinates and pixels are whole multiples of a
-- small unit, an opacity is in hundredths. Rounding is written out (Math.round rounds a half up). No
-- machine integers occur. The only loop on fuel is the one of buildTicks, with 170 rounds: the window
-- is a week of 168 hours, so that at most 169 are made.
--
-- The palettes' arithmetic is over a type of numbers that is a parameter, since there are no floats;
-- what is proved of it uses only that the order of numbers other than NaN is total.
--
-- Parameters: the calendar of Rome (Intl.DateTimeFormat), the clock of a browser, the map library's
-- filling in of an address template, the picker's dates, the rich text editor's contents, the
-- scale of a chart's axis, d3's bisector and the extremes of a list, the events of a WebSocket, and the
-- answers of the radar service.
--
-- Not modelled: the nodes that d3 and MapLibre make, the curve between two points of a line, the
-- registration of hooks, the connection of the page (assets/js/app.js), vendored scripts, and the server
-- (lib, ingest).
pub mod Prelude
pub mod Entries
pub mod Radar
pub mod Start
pub mod Timeline
pub mod Map
pub mod Charts
pub mod Inputs
pub mod Page
pub mod Palettes
