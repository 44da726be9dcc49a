-- ===== src/Mnemonic/Wordlist.antt =====
-- crates/pq-core/src/wordlist_english.txt, which mnemonic.rs embeds: the text, line breaks included.
use falcon_vanity_generator.Base.{ℕ, List, [], ◌∷◌, ◌++◌, String, codes}

unfoldable pub concat_codes : List String → List ℕ
concat_codes [] = []
concat_codes (s ∷ ss) = codes s ++ concat_codes ss

abbrev pub wordlist_chunks : List String
wordlist_chunks =
    "abandon\nability\nable\nabout\nabove\nabsent\nabsorb\nabstract\nabsurd\nabuse\n"
    ∷ "access\naccident\naccount\naccuse\nachieve\nacid\nacoustic\nacquire\nacross\nact\n"
    ∷ "action\nactor\nactress\nactual\nadapt\nadd\naddict\naddress\nadjust\nadmit\nadult\n"
    ∷ "advance\nadvice\naerobic\naffair\nafford\nafraid\nagain\nage\nagent\nagree\nahead\n"
    ∷ "aim\nair\nairport\naisle\nalarm\nalbum\nalcohol\nalert\nalien\nall\nalley\nallow\n"
    ∷ "almost\nalone\nalpha\nalready\nalso\nalter\nalways\namateur\namazing\namong\n"
    ∷ "amount\namused\nanalyst\nanchor\nancient\nanger\nangle\nangry\nanimal\nankle\n"
    ∷ "announce\nannual\nanother\nanswer\nantenna\nantique\nanxiety\nany\napart\napology\n"
    ∷ "appear\napple\napprove\napril\narch\narctic\narea\narena\nargue\narm\narmed\narmor\n"
    ∷ "army\naround\narrange\narrest\narrive\narrow\nart\nartefact\nartist\nartwork\nask\n"
    ∷ "aspect\nassault\nasset\nassist\nassume\nasthma\nathlete\natom\nattack\nattend\n"
    ∷ "attitude\nattract\nauction\naudit\naugust\naunt\nauthor\nauto\nautumn\naverage\n"
    ∷ "avocado\navoid\nawake\naware\naway\nawesome\nawful\nawkward\naxis\nbaby\nbachelor\n"
    ∷ "bacon\nbadge\nbag\nbalance\nbalcony\nball\nbamboo\nbanana\nbanner\nbar\nbarely\n"
    ∷ "bargain\nbarrel\nbase\nbasic\nbasket\nbattle\nbeach\nbean\nbeauty\nbecause\nbecome\n"
    ∷ "beef\nbefore\nbegin\nbehave\nbehind\nbelieve\nbelow\nbelt\nbench\nbenefit\nbest\n"
    ∷ "betray\nbetter\nbetween\nbeyond\nbicycle\nbid\nbike\nbind\nbiology\nbird\nbirth\n"
    ∷ "bitter\nblack\nblade\nblame\nblanket\nblast\nbleak\nbless\nblind\nblood\nblossom\n"
    ∷ "blouse\nblue\nblur\nblush\nboard\nboat\nbody\nboil\nbomb\nbone\nbonus\nbook\nboost\n"
    ∷ "border\nboring\nborrow\nboss\nbottom\nbounce\nbox\nboy\nbracket\nbrain\nbrand\n"
    ∷ "brass\nbrave\nbread\nbreeze\nbrick\nbridge\nbrief\nbright\nbring\nbrisk\nbroccoli\n"
    ∷ "broken\nbronze\nbroom\nbrother\nbrown\nbrush\nbubble\nbuddy\nbudget\nbuffalo\n"
    ∷ "build\nbulb\nbulk\nbullet\nbundle\nbunker\nburden\nburger\nburst\nbus\nbusiness\n"
    ∷ "busy\nbutter\nbuyer\nbuzz\ncabbage\ncabin\ncable\ncactus\ncage\ncake\ncall\ncalm\n"
    ∷ "camera\ncamp\ncan\ncanal\ncancel\ncandy\ncannon\ncanoe\ncanvas\ncanyon\ncapable\n"
    ∷ "capital\ncaptain\ncar\ncarbon\ncard\ncargo\ncarpet\ncarry\ncart\ncase\ncash\n"
    ∷ "casino\ncastle\ncasual\ncat\ncatalog\ncatch\ncategory\ncattle\ncaught\ncause\n"
    ∷ "caution\ncave\nceiling\ncelery\ncement\ncensus\ncentury\ncereal\ncertain\nchair\n"
    ∷ "chalk\nchampion\nchange\nchaos\nchapter\ncharge\nchase\nchat\ncheap\ncheck\ncheese\n"
    ∷ "chef\ncherry\nchest\nchicken\nchief\nchild\nchimney\nchoice\nchoose\nchronic\n"
    ∷ "chuckle\nchunk\nchurn\ncigar\ncinnamon\ncircle\ncitizen\ncity\ncivil\nclaim\nclap\n"
    ∷ "clarify\nclaw\nclay\nclean\nclerk\nclever\nclick\nclient\ncliff\nclimb\nclinic\n"
    ∷ "clip\nclock\nclog\nclose\ncloth\ncloud\nclown\nclub\nclump\ncluster\nclutch\ncoach\n"
    ∷ "coast\ncoconut\ncode\ncoffee\ncoil\ncoin\ncollect\ncolor\ncolumn\ncombine\ncome\n"
    ∷ "comfort\ncomic\ncommon\ncompany\nconcert\nconduct\nconfirm\ncongress\nconnect\n"
    ∷ "consider\ncontrol\nconvince\ncook\ncool\ncopper\ncopy\ncoral\ncore\ncorn\ncorrect\n"
    ∷ "cost\ncotton\ncouch\ncountry\ncouple\ncourse\ncousin\ncover\ncoyote\ncrack\ncradle\n"
    ∷ "craft\ncram\ncrane\ncrash\ncrater\ncrawl\ncrazy\ncream\ncredit\ncreek\ncrew\n"
    ∷ "cricket\ncrime\ncrisp\ncritic\ncrop\ncross\ncrouch\ncrowd\ncrucial\ncruel\ncruise\n"
    ∷ "crumble\ncrunch\ncrush\ncry\ncrystal\ncube\nculture\ncup\ncupboard\ncurious\n"
    ∷ "current\ncurtain\ncurve\ncushion\ncustom\ncute\ncycle\ndad\ndamage\ndamp\ndance\n"
    ∷ "danger\ndaring\ndash\ndaughter\ndawn\nday\ndeal\ndebate\ndebris\ndecade\ndecember\n"
    ∷ "decide\ndecline\ndecorate\ndecrease\ndeer\ndefense\ndefine\ndefy\ndegree\ndelay\n"
    ∷ "deliver\ndemand\ndemise\ndenial\ndentist\ndeny\ndepart\ndepend\ndeposit\ndepth\n"
    ∷ "deputy\nderive\ndescribe\ndesert\ndesign\ndesk\ndespair\ndestroy\ndetail\ndetect\n"
    ∷ "develop\ndevice\ndevote\ndiagram\ndial\ndiamond\ndiary\ndice\ndiesel\ndiet\ndiffer\n"
    ∷ "digital\ndignity\ndilemma\ndinner\ndinosaur\ndirect\ndirt\ndisagree\ndiscover\n"
    ∷ "disease\ndish\ndismiss\ndisorder\ndisplay\ndistance\ndivert\ndivide\ndivorce\n"
    ∷ "dizzy\ndoctor\ndocument\ndog\ndoll\ndolphin\ndomain\ndonate\ndonkey\ndonor\ndoor\n"
    ∷ "dose\ndouble\ndove\ndraft\ndragon\ndrama\ndrastic\ndraw\ndream\ndress\ndrift\n"
    ∷ "drill\ndrink\ndrip\ndrive\ndrop\ndrum\ndry\nduck\ndumb\ndune\nduring\ndust\ndutch\n"
    ∷ "duty\ndwarf\ndynamic\neager\neagle\nearly\nearn\nearth\neasily\neast\neasy\necho\n"
    ∷ "ecology\neconomy\nedge\nedit\neducate\neffort\negg\neight\neither\nelbow\nelder\n"
    ∷ "electric\nelegant\nelement\nelephant\nelevator\nelite\nelse\nembark\nembody\n"
    ∷ "embrace\nemerge\nemotion\nemploy\nempower\nempty\nenable\nenact\nend\nendless\n"
    ∷ "endorse\nenemy\nenergy\nenforce\nengage\nengine\nenhance\nenjoy\nenlist\nenough\n"
    ∷ "enrich\nenroll\nensure\nenter\nentire\nentry\nenvelope\nepisode\nequal\nequip\nera\n"
    ∷ "erase\nerode\nerosion\nerror\nerupt\nescape\nessay\nessence\nestate\neternal\n"
    ∷ "ethics\nevidence\nevil\nevoke\nevolve\nexact\nexample\nexcess\nexchange\nexcite\n"
    ∷ "exclude\nexcuse\nexecute\nexercise\nexhaust\nexhibit\nexile\nexist\nexit\nexotic\n"
    ∷ "expand\nexpect\nexpire\nexplain\nexpose\nexpress\nextend\nextra\neye\neyebrow\n"
    ∷ "fabric\nface\nfaculty\nfade\nfaint\nfaith\nfall\nfalse\nfame\nfamily\nfamous\nfan\n"
    ∷ "fancy\nfantasy\nfarm\nfashion\nfat\nfatal\nfather\nfatigue\nfault\nfavorite\n"
    ∷ "feature\nfebruary\nfederal\nfee\nfeed\nfeel\nfemale\nfence\nfestival\nfetch\nfever\n"
    ∷ "few\nfiber\nfiction\nfield\nfigure\nfile\nfilm\nfilter\nfinal\nfind\nfine\nfinger\n"
    ∷ "finish\nfire\nfirm\nfirst\nfiscal\nfish\nfit\nfitness\nfix\nflag\nflame\nflash\n"
    ∷ "flat\nflavor\nflee\nflight\nflip\nfloat\nflock\nfloor\nflower\nfluid\nflush\nfly\n"
    ∷ "foam\nfocus\nfog\nfoil\nfold\nfollow\nfood\nfoot\nforce\nforest\nforget\nfork\n"
    ∷ "fortune\nforum\nforward\nfossil\nfoster\nfound\nfox\nfragile\nframe\nfrequent\n"
    ∷ "fresh\nfriend\nfringe\nfrog\nfront\nfrost\nfrown\nfrozen\nfruit\nfuel\nfun\nfunny\n"
    ∷ "furnace\nfury\nfuture\ngadget\ngain\ngalaxy\ngallery\ngame\ngap\ngarage\ngarbage\n"
    ∷ "garden\ngarlic\ngarment\ngas\ngasp\ngate\ngather\ngauge\ngaze\ngeneral\ngenius\n"
    ∷ "genre\ngentle\ngenuine\ngesture\nghost\ngiant\ngift\ngiggle\nginger\ngiraffe\ngirl\n"
    ∷ "give\nglad\nglance\nglare\nglass\nglide\nglimpse\nglobe\ngloom\nglory\nglove\nglow\n"
    ∷ "glue\ngoat\ngoddess\ngold\ngood\ngoose\ngorilla\ngospel\ngossip\ngovern\ngown\n"
    ∷ "grab\ngrace\ngrain\ngrant\ngrape\ngrass\ngravity\ngreat\ngreen\ngrid\ngrief\ngrit\n"
    ∷ "grocery\ngroup\ngrow\ngrunt\nguard\nguess\nguide\nguilt\nguitar\ngun\ngym\nhabit\n"
    ∷ "hair\nhalf\nhammer\nhamster\nhand\nhappy\nharbor\nhard\nharsh\nharvest\nhat\nhave\n"
    ∷ "hawk\nhazard\nhead\nhealth\nheart\nheavy\nhedgehog\nheight\nhello\nhelmet\nhelp\n"
    ∷ "hen\nhero\nhidden\nhigh\nhill\nhint\nhip\nhire\nhistory\nhobby\nhockey\nhold\nhole\n"
    ∷ "holiday\nhollow\nhome\nhoney\nhood\nhope\nhorn\nhorror\nhorse\nhospital\nhost\n"
    ∷ "hotel\nhour\nhover\nhub\nhuge\nhuman\nhumble\nhumor\nhundred\nhungry\nhunt\nhurdle\n"
    ∷ "hurry\nhurt\nhusband\nhybrid\nice\nicon\nidea\nidentify\nidle\nignore\nill\n"
    ∷ "illegal\nillness\nimage\nimitate\nimmense\nimmune\nimpact\nimpose\nimprove\n"
    ∷ "impulse\ninch\ninclude\nincome\nincrease\nindex\nindicate\nindoor\nindustry\n"
    ∷ "infant\ninflict\ninform\ninhale\ninherit\ninitial\ninject\ninjury\ninmate\ninner\n"
    ∷ "innocent\ninput\ninquiry\ninsane\ninsect\ninside\ninspire\ninstall\nintact\n"
    ∷ "interest\ninto\ninvest\ninvite\ninvolve\niron\nisland\nisolate\nissue\nitem\nivory\n"
    ∷ "jacket\njaguar\njar\njazz\njealous\njeans\njelly\njewel\njob\njoin\njoke\njourney\n"
    ∷ "joy\njudge\njuice\njump\njungle\njunior\njunk\njust\nkangaroo\nkeen\nkeep\nketchup\n"
    ∷ "key\nkick\nkid\nkidney\nkind\nkingdom\nkiss\nkit\nkitchen\nkite\nkitten\nkiwi\n"
    ∷ "knee\nknife\nknock\nknow\nlab\nlabel\nlabor\nladder\nlady\nlake\nlamp\nlanguage\n"
    ∷ "laptop\nlarge\nlater\nlatin\nlaugh\nlaundry\nlava\nlaw\nlawn\nlawsuit\nlayer\nlazy\n"
    ∷ "leader\nleaf\nlearn\nleave\nlecture\nleft\nleg\nlegal\nlegend\nleisure\nlemon\n"
    ∷ "lend\nlength\nlens\nleopard\nlesson\nletter\nlevel\nliar\nliberty\nlibrary\n"
    ∷ "license\nlife\nlift\nlight\nlike\nlimb\nlimit\nlink\nlion\nliquid\nlist\nlittle\n"
    ∷ "live\nlizard\nload\nloan\nlobster\nlocal\nlock\nlogic\nlonely\nlong\nloop\nlottery\n"
    ∷ "loud\nlounge\nlove\nloyal\nlucky\nluggage\nlumber\nlunar\nlunch\nluxury\nlyrics\n"
    ∷ "machine\nmad\nmagic\nmagnet\nmaid\nmail\nmain\nmajor\nmake\nmammal\nman\nmanage\n"
    ∷ "mandate\nmango\nmansion\nmanual\nmaple\nmarble\nmarch\nmargin\nmarine\nmarket\n"
    ∷ "marriage\nmask\nmass\nmaster\nmatch\nmaterial\nmath\nmatrix\nmatter\nmaximum\nmaze\n"
    ∷ "meadow\nmean\nmeasure\nmeat\nmechanic\nmedal\nmedia\nmelody\nmelt\nmember\nmemory\n"
    ∷ "mention\nmenu\nmercy\nmerge\nmerit\nmerry\nmesh\nmessage\nmetal\nmethod\nmiddle\n"
    ∷ "midnight\nmilk\nmillion\nmimic\nmind\nminimum\nminor\nminute\nmiracle\nmirror\n"
    ∷ "misery\nmiss\nmistake\nmix\nmixed\nmixture\nmobile\nmodel\nmodify\nmom\nmoment\n"
    ∷ "monitor\nmonkey\nmonster\nmonth\nmoon\nmoral\nmore\nmorning\nmosquito\nmother\n"
    ∷ "motion\nmotor\nmountain\nmouse\nmove\nmovie\nmuch\nmuffin\nmule\nmultiply\nmuscle\n"
    ∷ "museum\nmushroom\nmusic\nmust\nmutual\nmyself\nmystery\nmyth\nnaive\nname\nnapkin\n"
    ∷ "narrow\nnasty\nnation\nnature\nnear\nneck\nneed\nnegative\nneglect\nneither\n"
    ∷ "nephew\nnerve\nnest\nnet\nnetwork\nneutral\nnever\nnews\nnext\nnice\nnight\nnoble\n"
    ∷ "noise\nnominee\nnoodle\nnormal\nnorth\nnose\nnotable\nnote\nnothing\nnotice\nnovel\n"
    ∷ "now\nnuclear\nnumber\nnurse\nnut\noak\nobey\nobject\noblige\nobscure\nobserve\n"
    ∷ "obtain\nobvious\noccur\nocean\noctober\nodor\noff\noffer\noffice\noften\noil\nokay\n"
    ∷ "old\nolive\nolympic\nomit\nonce\none\nonion\nonline\nonly\nopen\nopera\nopinion\n"
    ∷ "oppose\noption\norange\norbit\norchard\norder\nordinary\norgan\norient\noriginal\n"
    ∷ "orphan\nostrich\nother\noutdoor\nouter\noutput\noutside\noval\noven\nover\nown\n"
    ∷ "owner\noxygen\noyster\nozone\npact\npaddle\npage\npair\npalace\npalm\npanda\npanel\n"
    ∷ "panic\npanther\npaper\nparade\nparent\npark\nparrot\nparty\npass\npatch\npath\n"
    ∷ "patient\npatrol\npattern\npause\npave\npayment\npeace\npeanut\npear\npeasant\n"
    ∷ "pelican\npen\npenalty\npencil\npeople\npepper\nperfect\npermit\nperson\npet\nphone\n"
    ∷ "photo\nphrase\nphysical\npiano\npicnic\npicture\npiece\npig\npigeon\npill\npilot\n"
    ∷ "pink\npioneer\npipe\npistol\npitch\npizza\nplace\nplanet\nplastic\nplate\nplay\n"
    ∷ "please\npledge\npluck\nplug\nplunge\npoem\npoet\npoint\npolar\npole\npolice\npond\n"
    ∷ "pony\npool\npopular\nportion\nposition\npossible\npost\npotato\npottery\npoverty\n"
    ∷ "powder\npower\npractice\npraise\npredict\nprefer\nprepare\npresent\npretty\n"
    ∷ "prevent\nprice\npride\nprimary\nprint\npriority\nprison\nprivate\nprize\nproblem\n"
    ∷ "process\nproduce\nprofit\nprogram\nproject\npromote\nproof\nproperty\nprosper\n"
    ∷ "protect\nproud\nprovide\npublic\npudding\npull\npulp\npulse\npumpkin\npunch\npupil\n"
    ∷ "puppy\npurchase\npurity\npurpose\npurse\npush\nput\npuzzle\npyramid\nquality\n"
    ∷ "quantum\nquarter\nquestion\nquick\nquit\nquiz\nquote\nrabbit\nraccoon\nrace\nrack\n"
    ∷ "radar\nradio\nrail\nrain\nraise\nrally\nramp\nranch\nrandom\nrange\nrapid\nrare\n"
    ∷ "rate\nrather\nraven\nraw\nrazor\nready\nreal\nreason\nrebel\nrebuild\nrecall\n"
    ∷ "receive\nrecipe\nrecord\nrecycle\nreduce\nreflect\nreform\nrefuse\nregion\nregret\n"
    ∷ "regular\nreject\nrelax\nrelease\nrelief\nrely\nremain\nremember\nremind\nremove\n"
    ∷ "render\nrenew\nrent\nreopen\nrepair\nrepeat\nreplace\nreport\nrequire\nrescue\n"
    ∷ "resemble\nresist\nresource\nresponse\nresult\nretire\nretreat\nreturn\nreunion\n"
    ∷ "reveal\nreview\nreward\nrhythm\nrib\nribbon\nrice\nrich\nride\nridge\nrifle\nright\n"
    ∷ "rigid\nring\nriot\nripple\nrisk\nritual\nrival\nriver\nroad\nroast\nrobot\nrobust\n"
    ∷ "rocket\nromance\nroof\nrookie\nroom\nrose\nrotate\nrough\nround\nroute\nroyal\n"
    ∷ "rubber\nrude\nrug\nrule\nrun\nrunway\nrural\nsad\nsaddle\nsadness\nsafe\nsail\n"
    ∷ "salad\nsalmon\nsalon\nsalt\nsalute\nsame\nsample\nsand\nsatisfy\nsatoshi\nsauce\n"
    ∷ "sausage\nsave\nsay\nscale\nscan\nscare\nscatter\nscene\nscheme\nschool\nscience\n"
    ∷ "scissors\nscorpion\nscout\nscrap\nscreen\nscript\nscrub\nsea\nsearch\nseason\nseat\n"
    ∷ "second\nsecret\nsection\nsecurity\nseed\nseek\nsegment\nselect\nsell\nseminar\n"
    ∷ "senior\nsense\nsentence\nseries\nservice\nsession\nsettle\nsetup\nseven\nshadow\n"
    ∷ "shaft\nshallow\nshare\nshed\nshell\nsheriff\nshield\nshift\nshine\nship\nshiver\n"
    ∷ "shock\nshoe\nshoot\nshop\nshort\nshoulder\nshove\nshrimp\nshrug\nshuffle\nshy\n"
    ∷ "sibling\nsick\nside\nsiege\nsight\nsign\nsilent\nsilk\nsilly\nsilver\nsimilar\n"
    ∷ "simple\nsince\nsing\nsiren\nsister\nsituate\nsix\nsize\nskate\nsketch\nski\nskill\n"
    ∷ "skin\nskirt\nskull\nslab\nslam\nsleep\nslender\nslice\nslide\nslight\nslim\nslogan\n"
    ∷ "slot\nslow\nslush\nsmall\nsmart\nsmile\nsmoke\nsmooth\nsnack\nsnake\nsnap\nsniff\n"
    ∷ "snow\nsoap\nsoccer\nsocial\nsock\nsoda\nsoft\nsolar\nsoldier\nsolid\nsolution\n"
    ∷ "solve\nsomeone\nsong\nsoon\nsorry\nsort\nsoul\nsound\nsoup\nsource\nsouth\nspace\n"
    ∷ "spare\nspatial\nspawn\nspeak\nspecial\nspeed\nspell\nspend\nsphere\nspice\nspider\n"
    ∷ "spike\nspin\nspirit\nsplit\nspoil\nsponsor\nspoon\nsport\nspot\nspray\nspread\n"
    ∷ "spring\nspy\nsquare\nsqueeze\nsquirrel\nstable\nstadium\nstaff\nstage\nstairs\n"
    ∷ "stamp\nstand\nstart\nstate\nstay\nsteak\nsteel\nstem\nstep\nstereo\nstick\nstill\n"
    ∷ "sting\nstock\nstomach\nstone\nstool\nstory\nstove\nstrategy\nstreet\nstrike\n"
    ∷ "strong\nstruggle\nstudent\nstuff\nstumble\nstyle\nsubject\nsubmit\nsubway\nsuccess\n"
    ∷ "such\nsudden\nsuffer\nsugar\nsuggest\nsuit\nsummer\nsun\nsunny\nsunset\nsuper\n"
    ∷ "supply\nsupreme\nsure\nsurface\nsurge\nsurprise\nsurround\nsurvey\nsuspect\n"
    ∷ "sustain\nswallow\nswamp\nswap\nswarm\nswear\nsweet\nswift\nswim\nswing\nswitch\n"
    ∷ "sword\nsymbol\nsymptom\nsyrup\nsystem\ntable\ntackle\ntag\ntail\ntalent\ntalk\n"
    ∷ "tank\ntape\ntarget\ntask\ntaste\ntattoo\ntaxi\nteach\nteam\ntell\nten\ntenant\n"
    ∷ "tennis\ntent\nterm\ntest\ntext\nthank\nthat\ntheme\nthen\ntheory\nthere\nthey\n"
    ∷ "thing\nthis\nthought\nthree\nthrive\nthrow\nthumb\nthunder\nticket\ntide\ntiger\n"
    ∷ "tilt\ntimber\ntime\ntiny\ntip\ntired\ntissue\ntitle\ntoast\ntobacco\ntoday\n"
    ∷ "toddler\ntoe\ntogether\ntoilet\ntoken\ntomato\ntomorrow\ntone\ntongue\ntonight\n"
    ∷ "tool\ntooth\ntop\ntopic\ntopple\ntorch\ntornado\ntortoise\ntoss\ntotal\ntourist\n"
    ∷ "toward\ntower\ntown\ntoy\ntrack\ntrade\ntraffic\ntragic\ntrain\ntransfer\ntrap\n"
    ∷ "trash\ntravel\ntray\ntreat\ntree\ntrend\ntrial\ntribe\ntrick\ntrigger\ntrim\ntrip\n"
    ∷ "trophy\ntrouble\ntruck\ntrue\ntruly\ntrumpet\ntrust\ntruth\ntry\ntube\ntuition\n"
    ∷ "tumble\ntuna\ntunnel\nturkey\nturn\nturtle\ntwelve\ntwenty\ntwice\ntwin\ntwist\n"
    ∷ "two\ntype\ntypical\nugly\numbrella\nunable\nunaware\nuncle\nuncover\nunder\nundo\n"
    ∷ "unfair\nunfold\nunhappy\nuniform\nunique\nunit\nuniverse\nunknown\nunlock\nuntil\n"
    ∷ "unusual\nunveil\nupdate\nupgrade\nuphold\nupon\nupper\nupset\nurban\nurge\nusage\n"
    ∷ "use\nused\nuseful\nuseless\nusual\nutility\nvacant\nvacuum\nvague\nvalid\nvalley\n"
    ∷ "valve\nvan\nvanish\nvapor\nvarious\nvast\nvault\nvehicle\nvelvet\nvendor\nventure\n"
    ∷ "venue\nverb\nverify\nversion\nvery\nvessel\nveteran\nviable\nvibrant\nvicious\n"
    ∷ "victory\nvideo\nview\nvillage\nvintage\nviolin\nvirtual\nvirus\nvisa\nvisit\n"
    ∷ "visual\nvital\nvivid\nvocal\nvoice\nvoid\nvolcano\nvolume\nvote\nvoyage\nwage\n"
    ∷ "wagon\nwait\nwalk\nwall\nwalnut\nwant\nwarfare\nwarm\nwarrior\nwash\nwasp\nwaste\n"
    ∷ "water\nwave\nway\nwealth\nweapon\nwear\nweasel\nweather\nweb\nwedding\nweekend\n"
    ∷ "weird\nwelcome\nwest\nwet\nwhale\nwhat\nwheat\nwheel\nwhen\nwhere\nwhip\nwhisper\n"
    ∷ "wide\nwidth\nwife\nwild\nwill\nwin\nwindow\nwine\nwing\nwink\nwinner\nwinter\nwire\n"
    ∷ "wisdom\nwise\nwish\nwitness\nwolf\nwoman\nwonder\nwood\nwool\nword\nwork\nworld\n"
    ∷ "worry\nworth\nwrap\nwreck\nwrestle\nwrist\nwrite\nwrong\nyard\nyear\nyellow\nyou\n"
    ∷ "young\nyouth\nzebra\nzero\nzone\nzoo\n" ∷ []

unfoldable pub wordlist_raw : List ℕ
unfolding concat_codes
wordlist_raw = concat_codes wordlist_chunks
